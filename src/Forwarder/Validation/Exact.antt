-- ===== src/Forwarder/Validation/Exact.antt =====
-- Which messages pass the validation of the Forwarder.
use Prim.Native.String.{count, [], ◌∷◌}
use mathlib.Core.Bool.{false≢true}
use flow_first.Base.{
  String, Bool, true, false, some, [], ◌∷◌, ◌≡◌, refl, sym, ap, ◌∙◌, ◌↔◌, inl, inr, arith, Member,
  contains, contains-Member, Member-contains, if◌then◌else◌,
}
use flow_first.Base.Result.{ok, raise, Result-cases, attribute_error}
use flow_first.Base.Text.{strip, is_empty}
use flow_first.Json.{Json, Fields, end, get_field, is_truthy}
use flow_first.Env.{field_or}
use flow_first.Forwarder.Validation.{
  strip_text, allowed_device_types, valid_filters, valid_flow4, valid_flow5, valid_flow6,
  valid_flow7,
}

blank :
    {A : Type 0} (b : Bool) (s : String)
    → (if b then raise attribute_error else ok "") ≡ ok s
    → is_empty s ≡ false
    → A
unfolding is_empty
blank true s h filled = ground arith
blank false s h filled =
    let e : "" ≡ s = ground arith in absurd (false≢true (sym filled ∙ sym (ap is_empty e)))

strip_text-filled :
    (v : Json) (s : String)
    → strip_text v ≡ ok s
    → is_empty s ≡ false
    → (t : String) × (v ≡ Json.str t) × (strip t ≡ s)
unfolding strip_text is_empty
strip_text-filled (Json.str t) s h filled = (t, refl, ground arith)
strip_text-filled v s h filled = blank (is_truthy v) s h filled

field_or-text :
    (msg : Fields) (key t : String)
    → field_or msg key Json.null ≡ Json.str t
    → get_field msg key ≡ some (Json.str t)
field_or-text msg key t h = ground arith

-- the field is a text that is not empty once stripped
abbrev pub Filled : Fields → String → String → Type 0
Filled msg key s =
    (t : String) × (get_field msg key ≡ some (Json.str t)) × (strip t ≡ s) × (is_empty s ≡ false)

read-Filled :
    (msg : Fields) (key s : String)
    → strip_text (field_or msg key Json.null) ≡ ok s
    → is_empty s ≡ false
    → Filled msg key s
read-Filled msg key s h filled =
    let (t, v, e) = strip_text-filled (field_or msg key Json.null) s h filled in
    (t, field_or-text msg key t v, e, filled)

Filled-read :
    (msg : Fields) (key s : String)
    → Filled msg key s
    → strip_text (field_or msg key Json.null) ≡ ok s
unfolding strip_text
Filled-read msg key s (t, found, e, filled) = rw (found, e)

allowed-filled : (s : String) → contains allowed_device_types s ≡ true → is_empty s ≡ false
unfolding is_empty contains
allowed-filled [] h = absurd (false≢true h)
allowed-filled (c ∷ s) h = refl

valid_filters-exact :
    (filters : Json) → valid_filters filters ≡ ok true ↔ ((d : Fields) × (filters ≡ Json.obj d))
unfolding valid_filters is_truthy
valid_filters-exact (Json.obj d) = (λ h. (d, refl), λ (d', e). ground arith)
valid_filters-exact Json.null = (λ h. ground arith, λ (d', e). ground arith)
valid_filters-exact (Json.bool b) = (λ h. ground arith, λ (d', e). ground arith)
valid_filters-exact (Json.int n) = (λ h. ground arith, λ (d', e). ground arith)
valid_filters-exact (Json.float x) = (λ h. ground arith, λ (d', e). ground arith)
valid_filters-exact (Json.str s) = (λ h. ground arith, λ (d', e). ground arith)
valid_filters-exact (Json.arr l) = (λ h. ground arith, λ (d', e). ground arith)

abbrev pub Creatable : Fields → Type 0
Creatable msg =
    (name type : String) × Filled msg "device_name" name
    × Filled msg "device_type" type
    × Member type allowed_device_types

-- A device is created exactly if its name is a text that strips to something and its type, stripped, is
-- one of those allowed.
pub valid_flow4-exact : (msg : Fields) → valid_flow4 msg ≡ ok true ↔ Creatable msg
unfolding valid_flow4
valid_flow4-exact msg = (
  λ h. elim (Result-cases (strip_text (field_or msg "device_name" Json.null))) [
    | inr (e, failed) ↦ ground arith
    | inl (name, named) ↦ elim (Result-cases (strip_text (field_or msg "device_type" Json.null))) [
      | inr (e, failed) ↦ ground arith
      | inl (type, typed) ↦
          let filled : is_empty name ≡ false = ground arith in
          let allowed : contains allowed_device_types type ≡ true = ground arith in
          (
            name,
            type,
            read-Filled msg "device_name" name named filled,
            read-Filled msg "device_type" type typed (allowed-filled type allowed),
            contains-Member allowed_device_types type allowed,
          )
    ]
  ],
  λ (name, type, named, typed, m). ground (
    arith,
    Filled-read msg "device_name" name named,
    Filled-read msg "device_type" type typed,
    Member-contains allowed_device_types type m,
  ),
)

valid_flow6_flow7-exact :
    (msg : Fields)
    → (valid_flow6 msg ≡ ok true ↔ ((id : String) × Filled msg "device_id" id × (count id ≡ 36)))
      × (valid_flow7 msg ≡ ok true ↔ ((id : String) × Filled msg "device_id" id))
unfolding valid_flow6 valid_flow7
valid_flow6_flow7-exact msg =
    elim (Result-cases (strip_text (field_or msg "device_id" Json.null))) [
      | inr (e, failed) ↦ (
        (
          λ h. ground arith,
          λ (id, filled, n). ground (arith, Filled-read msg "device_id" id filled),
        ),
        (λ h. ground arith, λ (id, filled). ground (arith, Filled-read msg "device_id" id filled)),
      )
      | inl (id, found) ↦ (
        (
          λ h. (id, read-Filled msg "device_id" id found (ground arith), ground arith),
          λ (id', filled, n). ground (arith, Filled-read msg "device_id" id' filled),
        ),
        (
          λ h. (id, read-Filled msg "device_id" id found (ground arith)),
          λ (id', filled). ground (arith, Filled-read msg "device_id" id' filled),
        ),
      )
    ]

valid_flow5-exact :
    (msg : Fields)
    → valid_flow5 msg ≡ ok true
      ↔ ((d : Fields) × (field_or msg "filters" (Json.obj end) ≡ Json.obj d))
unfolding valid_flow5
valid_flow5-exact msg = valid_filters-exact (field_or msg "filters" (Json.obj end))

-- A query passes exactly if it has no filters or they are a dict. A device is updated exactly if its
-- identifier is a text of 36 characters once stripped, and deleted exactly if it is a text that is not
-- empty once stripped.
pub valid_flow5_flow6_flow7-exact :
    (msg : Fields)
    → (valid_flow5 msg ≡ ok true
        ↔ ((d : Fields) × (field_or msg "filters" (Json.obj end) ≡ Json.obj d)))
      × (valid_flow6 msg ≡ ok true ↔ ((id : String) × Filled msg "device_id" id × (count id ≡ 36)))
      × (valid_flow7 msg ≡ ok true ↔ ((id : String) × Filled msg "device_id" id))
valid_flow5_flow6_flow7-exact msg =
    (valid_flow5-exact msg, (valid_flow6_flow7-exact msg).0, (valid_flow6_flow7-exact msg).1)
