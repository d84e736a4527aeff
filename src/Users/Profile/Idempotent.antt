-- ===== src/Users/Profile/Idempotent.antt =====
-- What the profile parser accepts, it accepts again unchanged.
use concierge.Prelude.{
  ℕ, ◌-◌, String, List, [], ◌∷◌, ◌++◌, Bool, true, false, not, ◌&&◌, Option, none, some, all,
  length, is_empty, if◌then◌else◌, ◌≡◌, refl, ap, ◌∙◌, arith,
}
use concierge.Errors.{Result, ok, ◌>>=◌}
use concierge.Text.{
  Text, trim, bytes, encode, is_whitespace, is_ascii_alphabetic, is_ascii_lowercase,
}
use concierge.Text.Trim.{trim_idem, trim-none}
use concierge.Users.Identity.{Unicode}
use concierge.Users.Fields.{
  accept_date, accept_address, accept_language, accept_currency, accept_timezone,
  to_ascii_uppercase,
}
use concierge.Users.Profile.{
  ProfileFields, normalized, not_blank, on_value, accept_name, accept_phone, parse_profile,
}

not_blank-trim : (t : Text) → trim t ≡ t → normalized (not_blank t) ≡ not_blank t
unfolding normalized
not_blank-trim [] h = refl
not_blank-trim (c ∷ t) h = rw h refl

normalized_idem : (v : Option Text) → normalized (normalized v) ≡ normalized v
unfolding normalized
normalized_idem none = refl
normalized_idem (some t) = not_blank-trim (trim t) (trim_idem t)

-- A parser that returns what it accepts unchanged.
abbrev Keeps : (Text → Result (Option Text)) → Type 0
Keeps accept = (t : Text) (w : Option Text) → accept t ≡ ok w → w ≡ some t

accepted :
    (accept : Text → Result (Option Text)) (v w : Option Text)
    → Keeps accept
    → on_value v accept ≡ ok w
    → w ≡ v
accepted accept none w k h = ground arith
accepted accept (some t) w k h = k t w h

-- Parsing what such a parser accepted gives it again.
on_value_idem :
    (accept : Text → Result (Option Text)) (v w : Option Text)
    → Keeps accept
    → on_value (normalized v) accept ≡ ok w
    → on_value (normalized w) accept ≡ ok w
on_value_idem accept v w k h =
    let e : w ≡ normalized v = accepted accept (normalized v) w k h in
    ap (λ x. on_value x accept) (ap normalized e ∙ normalized_idem v) ∙ h

Keeps-date : Keeps accept_date
unfolding accept_date
Keeps-date t w h = ground arith

Keeps-address : Keeps accept_address
unfolding accept_address
Keeps-address t w h = ground arith

Keeps-language : Keeps accept_language
unfolding accept_language
Keeps-language t w h = ground arith

Keeps-timezone : Keeps accept_timezone
unfolding accept_timezone
Keeps-timezone t w h = ground arith

alphabetic_encode :
    (c : ℕ) → all is_ascii_alphabetic (encode c) ≡ true → is_ascii_alphabetic c ≡ true
alphabetic_encode c h = ground arith

all-append : (p : ℕ → Bool) (xs ys : List ℕ) → all p (xs ++ ys) ≡ (all p xs && all p ys)
all-append p [] ys = refl
all-append p (x ∷ xs) ys = ground (arith, all-append p xs ys)

alphabetic_bytes :
    (t : Text) → all is_ascii_alphabetic (bytes t) ≡ true → all is_ascii_alphabetic t ≡ true
alphabetic_bytes [] h = refl
alphabetic_bytes (c ∷ t) h =
    let both = all-append is_ascii_alphabetic (encode c) (bytes t) in
    ground (arith, both, alphabetic_encode c, alphabetic_bytes t)

-- A letter and its capital, in one byte each.
upper_letter :
    (c : ℕ)
    → is_ascii_alphabetic c ≡ true
    → let d = (if is_ascii_lowercase c then c - 32 else c) in
      (is_ascii_alphabetic d ≡ true)
      × (is_ascii_lowercase d ≡ false)
      × (is_whitespace d ≡ false)
      × (encode d ≡ d ∷ [])
      × (encode c ≡ c ∷ [])
unfolding is_whitespace
upper_letter c h = ground arith

-- A text of letters, in capitals.
upper_letters :
    (t : Text)
    → all is_ascii_alphabetic t ≡ true
    → let s = to_ascii_uppercase t in
      (all is_ascii_alphabetic (bytes s) ≡ true)
      × (length (bytes s) ≡ length (bytes t))
      × (to_ascii_uppercase s ≡ s)
      × (all (λ c. not (is_whitespace c)) s ≡ true)
      × (is_empty s ≡ is_empty t)
upper_letters [] h = (refl, refl, refl, refl, refl)
upper_letters (c ∷ t) h =
    let rest = upper_letters t (ground arith) in ground (arith, upper_letter c, rest)

not_blank-some : (s : Text) → is_empty s ≡ false → not_blank s ≡ some s
not_blank-some s h = rw h

accept_currency_ok :
    (t : Text) (w : Option Text)
    → accept_currency t ≡ ok w
    → (w ≡ some (to_ascii_uppercase t))
      × (length (bytes t) ≡ 3)
      × (all is_ascii_alphabetic (bytes t) ≡ true)
unfolding accept_currency
accept_currency_ok t w h = ground arith

currency_accepts :
    (s : Text)
    → length (bytes s) ≡ 3
    → all is_ascii_alphabetic (bytes s) ≡ true
    → accept_currency s ≡ ok (some (to_ascii_uppercase s))
unfolding accept_currency
currency_accepts s n a = rw (n, a) refl

is_empty-bytes : (t : Text) → length (bytes t) ≡ 3 → is_empty t ≡ false
is_empty-bytes [] h = absurd (omega arith)
is_empty-bytes (c ∷ t) h = refl

normalized-some :
    (s : Text)
    → all (λ c. not (is_whitespace c)) s ≡ true
    → is_empty s ≡ false
    → normalized (some s) ≡ some s
unfolding normalized
normalized-some s black full = rw (trim-none s black) (not_blank-some s full)

currency_again :
    (t : Text) (w : Option Text)
    → accept_currency t ≡ ok w
    → on_value (normalized w) accept_currency ≡ ok w
currency_again t w h =
    let (value, three, letters) = accept_currency_ok t w h in
    let s : Text = to_ascii_uppercase t in
    let (alphabetic, size, upper, black, full) = upper_letters t (alphabetic_bytes t letters) in
    rw value (
      rw (normalized-some s black (full ∙ is_empty-bytes t three))
        (currency_accepts s (size ∙ three) alphabetic ∙ ap (λ x. ok (some x)) upper))

parse_currency_again :
    (v w : Option Text)
    → on_value v accept_currency ≡ ok w
    → on_value (normalized w) accept_currency ≡ ok w
unfolding normalized
parse_currency_again none w h = ground arith
parse_currency_again (some t) w h = currency_again t w h

-- The chain of `ProfileFields::parse` over the results of its ten parsers.
abbrev build : (a b c d e f g h i j : Result (Option Text)) → Result ProfileFields
build a b c d e f g h i j = do
  legal_name ← a
  preferred_name ← b
  phone ← c
  date_of_birth ← d
  nationality ← e
  tax_residence ← f
  residential_address ← g
  language ← h
  base_currency ← i
  timezone ← j
  ok (record {
    legal_name = legal_name;
    preferred_name = preferred_name;
    phone = phone;
    date_of_birth = date_of_birth;
    nationality = nationality;
    tax_residence = tax_residence;
    residential_address = residential_address;
    language = language;
    base_currency = base_currency;
    timezone = timezone;
  })

build_fields :
    (a b c d e f g h i j : Result (Option Text)) (p : ProfileFields)
    → build a b c d e f g h i j ≡ ok p
    → (a ≡ ok p.legal_name)
      × (b ≡ ok p.preferred_name)
      × (c ≡ ok p.phone)
      × (d ≡ ok p.date_of_birth)
      × (e ≡ ok p.nationality)
      × (f ≡ ok p.tax_residence)
      × (g ≡ ok p.residential_address)
      × (h ≡ ok p.language)
      × (i ≡ ok p.base_currency)
      × (j ≡ ok p.timezone)
build_fields a b c d e f g h i j p x = ground arith

build_ok :
    (a b c d e f g h i j : Result (Option Text)) (p : ProfileFields)
    → a ≡ ok p.legal_name
    → b ≡ ok p.preferred_name
    → c ≡ ok p.phone
    → d ≡ ok p.date_of_birth
    → e ≡ ok p.nationality
    → f ≡ ok p.tax_residence
    → g ≡ ok p.residential_address
    → h ≡ ok p.language
    → i ≡ ok p.base_currency
    → j ≡ ok p.timezone
    → build a b c d e f g h i j ≡ ok p
build_ok a b c d e f g h i j p ha hb hc hd he hf hg hh hi hj =
    rw (ha, hb, hc, hd, he, hf, hg, hh, hi, hj) refl

module _ (u : Unicode) (validate_phone : Text → Option Text) where
  Keeps-name : (field : String) (max : ℕ) → Keeps (accept_name u validate_phone field max)
  unfolding accept_name
  Keeps-name field max t w h = ground arith

  Keeps-phone : Keeps (accept_phone u validate_phone)
  unfolding accept_phone
  Keeps-phone t w h = ground arith

  -- Whatever the Unicode tables and the phone validation are, the profile that the parser returns is
  -- accepted again and returned unchanged, the capitals of the currency included.
  pub parse_profile_idem :
      (raw parsed : ProfileFields)
      → parse_profile u validate_phone raw ≡ ok parsed
      → parse_profile u validate_phone parsed ≡ ok parsed
  unfolding parse_profile
  parse_profile_idem raw parsed h =
      let fields = build_fields _ _ _ _ _ _ _ _ _ _ parsed h in
      build_ok _ _ _ _ _ _ _ _ _ _ parsed
        (on_value_idem _ raw.legal_name _ (Keeps-name "legal_name" 256) fields.0)
        (on_value_idem _ raw.preferred_name _ (Keeps-name "preferred_name" 64) fields.1)
        (on_value_idem _ raw.phone _ Keeps-phone fields.2)
        (on_value_idem _ raw.date_of_birth _ Keeps-date fields.3)
        (on_value_idem _ raw.nationality _ (Keeps-name "nationality" 64) fields.4)
        (on_value_idem _ raw.tax_residence _ (Keeps-name "tax_residence" 64) fields.5)
        (on_value_idem _ raw.residential_address _ Keeps-address fields.6)
        (on_value_idem _ raw.language _ Keeps-language fields.7)
        (parse_currency_again (normalized raw.base_currency) _ fields.8)
        (on_value_idem _ raw.timezone _ Keeps-timezone fields.9)
