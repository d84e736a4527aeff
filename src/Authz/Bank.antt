-- ===== src/Authz/Bank.antt =====
-- domain/src/authz.rs: the permissions of the money plane (`mod bank`).
use Prim.Native.String.{String}
use concierge.Authz.Permissions.{Permission}

-- `bank:treasury:*`
pub data Treasury : Type 0 where
  read : Treasury

abbrev pub treasury_as_str : Treasury → String
treasury_as_str read = "bank:treasury:read"

instance abbrev pub treasury_permission : Permission Treasury
treasury_permission = record { as_str = treasury_as_str }

-- `bank:user_balance:*`
pub data UserBalance : Type 0 where
  read : UserBalance

abbrev pub user_balance_as_str : UserBalance → String
user_balance_as_str read = "bank:user_balance:read"

instance abbrev pub user_balance_permission : Permission UserBalance
user_balance_permission = record { as_str = user_balance_as_str }

-- `bank:valuation:*`
pub data Valuation : Type 0 where
  post : Valuation

abbrev pub valuation_as_str : Valuation → String
valuation_as_str post = "bank:valuation:post"

instance abbrev pub valuation_permission : Permission Valuation
valuation_permission = record { as_str = valuation_as_str }

-- `bank:allocation:*`
pub data Allocation : Type 0 where
  manage : Allocation

abbrev pub allocation_as_str : Allocation → String
allocation_as_str manage = "bank:allocation:manage"

instance abbrev pub allocation_permission : Permission Allocation
allocation_permission = record { as_str = allocation_as_str }

-- `bank:redemption:*`
pub data Redemption : Type 0 where
  settle fail : Redemption

abbrev pub redemption_as_str : Redemption → String
redemption_as_str settle = "bank:redemption:settle"
redemption_as_str fail = "bank:redemption:fail"

instance abbrev pub redemption_permission : Permission Redemption
redemption_permission = record { as_str = redemption_as_str }

-- `bank:withdrawal:*`
pub data Withdrawal : Type 0 where
  dispatch settle fail : Withdrawal

abbrev pub withdrawal_as_str : Withdrawal → String
withdrawal_as_str dispatch = "bank:withdrawal:dispatch"
withdrawal_as_str settle = "bank:withdrawal:settle"
withdrawal_as_str fail = "bank:withdrawal:fail"

instance abbrev pub withdrawal_permission : Permission Withdrawal
withdrawal_permission = record { as_str = withdrawal_as_str }

-- `bank:capital:*`
pub data Capital : Type 0 where
  manage : Capital

abbrev pub capital_as_str : Capital → String
capital_as_str manage = "bank:capital:manage"

instance abbrev pub capital_permission : Permission Capital
capital_permission = record { as_str = capital_as_str }

-- `bank:consilium:*`
pub data Consilium : Type 0 where
  manage : Consilium

abbrev pub consilium_as_str : Consilium → String
consilium_as_str manage = "bank:consilium:manage"

instance abbrev pub consilium_permission : Permission Consilium
consilium_permission = record { as_str = consilium_as_str }

-- `bank:payment:*`
pub data Payment : Type 0 where
  open_payment : Payment

abbrev pub payment_as_str : Payment → String
payment_as_str open_payment = "bank:payment:open"

instance abbrev pub payment_permission : Permission Payment
payment_permission = record { as_str = payment_as_str }

-- `bank:operations:*`
pub data Operations : Type 0 where
  manage : Operations

abbrev pub operations_as_str : Operations → String
operations_as_str manage = "bank:operations:manage"

instance abbrev pub operations_permission : Permission Operations
operations_permission = record { as_str = operations_as_str }

-- `bank:outbox:*`
pub data Outbox : Type 0 where
  manage : Outbox

abbrev pub outbox_as_str : Outbox → String
outbox_as_str manage = "bank:outbox:manage"

instance abbrev pub outbox_permission : Permission Outbox
outbox_permission = record { as_str = outbox_as_str }

-- `bank:user:*`
pub data Users : Type 0 where
  revoke suspend : Users

abbrev pub users_as_str : Users → String
users_as_str revoke = "bank:user:revoke"
users_as_str suspend = "bank:user:suspend"

instance abbrev pub users_permission : Permission Users
users_permission = record { as_str = users_as_str }

-- `bank:self:*`
pub data Own : Type 0 where
  wallet invest operations : Own

abbrev pub own_as_str : Own → String
own_as_str wallet = "bank:self:wallet"
own_as_str invest = "bank:self:invest"
own_as_str operations = "bank:self:operations"

instance abbrev pub own_permission : Permission Own
own_permission = record { as_str = own_as_str }

-- `bank:deposit_address:*`
pub data DepositAddress : Type 0 where
  rotate migrate : DepositAddress

abbrev pub deposit_address_as_str : DepositAddress → String
deposit_address_as_str rotate = "bank:deposit_address:rotate"
deposit_address_as_str migrate = "bank:deposit_address:migrate"

instance abbrev pub deposit_address_permission : Permission DepositAddress
deposit_address_permission = record { as_str = deposit_address_as_str }
