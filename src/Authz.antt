-- ===== src/Authz.antt =====
-- domain/src/authz.rs: the seats and what each may do. A permission is its name; `name` is
-- `Permission::as_str`.
pub mod Role
pub mod Permissions
pub mod Bank
pub mod Matrix
use Prim.Native.String.{compare as compare_text}
use Prim.Native.Nat.{Ordering}
use text.Mathlib.Text.{◌==◌ as str_eq, starts_with}
use concierge.Prelude.{ℕ, String, List, [], ◌∷◌, Bool, true, false, ◌||◌, filter, if◌then◌else◌}
use concierge.Authz.Permissions.{
  Permission, Users, Kyc, Roles, Own, Platform, Iam, users_permission, kyc_permission,
  roles_permission, own_permission, platform_permission, iam_permission,
}
use concierge.Authz.Bank.{
  Treasury, UserBalance, Valuation, Allocation, Redemption, Withdrawal, Capital, Consilium, Payment,
  Operations, Outbox, DepositAddress, treasury_permission, user_balance_permission,
  valuation_permission, allocation_permission, redemption_permission, withdrawal_permission,
  capital_permission, consilium_permission, payment_permission, operations_permission,
  outbox_permission, deposit_address_permission,
}
use concierge.Authz.Bank.{Users as BankUsers, users_permission as bank_users_permission}
use concierge.Authz.Bank.{Own as BankOwn, own_permission as bank_own_permission}

abbrev pub name : {A : Type 0} ⦃p : Permission A⦄ → A → String
name ⦃p⦄ = p.as_str

-- A guest holds nothing.
abbrev pub seat_guest : List String
seat_guest = []

-- An account over its own record.
abbrev pub seat_investor : List String
seat_investor =
    name Own.profile
    ∷ name Own.notifications
    ∷ name Own.sessions
    ∷ name BankOwn.wallet
    ∷ name BankOwn.invest
    ∷ name BankOwn.operations
    ∷ []

-- An operator views and never acts.
abbrev pub seat_operator : List String
seat_operator =
    name Own.profile
    ∷ name Own.notifications
    ∷ name Own.sessions
    ∷ name BankOwn.wallet
    ∷ name BankOwn.invest
    ∷ name BankOwn.operations
    ∷ name Users.read
    ∷ name Platform.read
    ∷ name Treasury.read
    ∷ name UserBalance.read
    ∷ []

-- An admin does every act except granting seats.
abbrev pub seat_admin : List String
seat_admin =
    name Own.profile
    ∷ name Own.notifications
    ∷ name Own.sessions
    ∷ name BankOwn.wallet
    ∷ name BankOwn.invest
    ∷ name BankOwn.operations
    ∷ name Users.read
    ∷ name Users.suspend
    ∷ name Users.revoke
    ∷ name Kyc.manage
    ∷ name Platform.read
    ∷ name Platform.manage
    ∷ name Iam.grant
    ∷ name Treasury.read
    ∷ name UserBalance.read
    ∷ name Valuation.post
    ∷ name Allocation.manage
    ∷ name Redemption.settle
    ∷ name Redemption.fail
    ∷ name Withdrawal.dispatch
    ∷ name Withdrawal.settle
    ∷ name Withdrawal.fail
    ∷ name Capital.manage
    ∷ name Consilium.manage
    ∷ name Payment.open_payment
    ∷ name Operations.manage
    ∷ name Outbox.manage
    ∷ name BankUsers.revoke
    ∷ name BankUsers.suspend
    ∷ name DepositAddress.rotate
    ∷ name DepositAddress.migrate
    ∷ []

-- An owner does everything.
abbrev pub seat_owner : List String
seat_owner =
    name Own.profile
    ∷ name Own.notifications
    ∷ name Own.sessions
    ∷ name BankOwn.wallet
    ∷ name BankOwn.invest
    ∷ name BankOwn.operations
    ∷ name Users.read
    ∷ name Users.suspend
    ∷ name Users.revoke
    ∷ name Kyc.manage
    ∷ name Roles.grant
    ∷ name Platform.read
    ∷ name Platform.manage
    ∷ name Iam.grant
    ∷ name Treasury.read
    ∷ name UserBalance.read
    ∷ name Valuation.post
    ∷ name Allocation.manage
    ∷ name Redemption.settle
    ∷ name Redemption.fail
    ∷ name Withdrawal.dispatch
    ∷ name Withdrawal.settle
    ∷ name Withdrawal.fail
    ∷ name Capital.manage
    ∷ name Consilium.manage
    ∷ name Payment.open_payment
    ∷ name Operations.manage
    ∷ name Outbox.manage
    ∷ name BankUsers.revoke
    ∷ name BankUsers.suspend
    ∷ name DepositAddress.rotate
    ∷ name DepositAddress.migrate
    ∷ []

-- The order of the meanings across binaries.
abbrev pub seat_generation : ℕ
seat_generation = 2

abbrev pub str_contains : List String → String → Bool
str_contains [] p = false
str_contains (q ∷ qs) p = str_eq q p || str_contains qs p

unfoldable pub permissions : Role.Role → List String
permissions Role.investor = seat_investor
permissions Role.operator = seat_operator
permissions Role.admin = seat_admin
permissions Role.owner = seat_owner

-- `Role::may` on the name of a permission.
unfoldable pub may_name : Role.Role → String → Bool
may_name role p = str_contains (permissions role) p

abbrev pub may : {A : Type 0} ⦃p : Permission A⦄ → Role.Role → A → Bool
may role permission = may_name role (name permission)

-- `sort_unstable` on texts, which are compared by their bytes.
unfoldable pub insert_sorted : String → List String → List String
insert_sorted p [] = p ∷ []
insert_sorted p (q ∷ qs) = elim (compare_text p q) [
  | Ordering.gt ↦ q ∷ insert_sorted p qs
  | _ ↦ p ∷ q ∷ qs
]

unfoldable pub sort_unstable : List String → List String
unfolding insert_sorted
sort_unstable [] = []
sort_unstable (p ∷ ps) = insert_sorted p (sort_unstable ps)

-- What the money plane mirrors.
unfoldable pub bank_permissions : Role.Role → List String
bank_permissions role = sort_unstable (filter (λ p. starts_with p "bank:") (permissions role))
