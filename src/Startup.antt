-- ===== src/Startup.antt =====
-- What the processes do as they start, from src/config/config.py: the readers of the environment, the check
-- of the secrets, and the addresses of the brokers. `\w` is on the letters of ASCII, digits and underscores.
pub mod Secrets
pub mod ExtraNodes
pub mod Declared
pub mod Examples
use Prim.Native.String.{[], ◌∷◌, count}
use flow_first.Base.{
  ℕ, String, Bool, true, false, not, ◌&&◌, ◌||◌, Option, none, some, List, [], ◌∷◌, ◌++◌, ◌==◌,
  code, ltb, leb, eqb, contains, keep, map, if◌then◌else◌,
}
use flow_first.Base.Int.{ℤ, pos}
use flow_first.Base.Dict.{Dict, get, get_or}
use flow_first.Base.Result.{Result, ok, raise, ◌>>=◌, value_error, runtime_error}
use flow_first.Base.Text.{strip, is_empty, lower, split, has_char, take_text, concat}
use flow_first.Numbers.{int_of_text, text_of_int}

is_word : ℕ → Bool
is_word c =
    leb b'0' c && leb c b'9' || leb b'A' c && leb c b'Z' || leb b'a' c && leb c b'z' || eqb c b'_'

abbrev begins_word : String → Bool
begins_word [] = false
begins_word (c ∷ s) = is_word (code c)

abbrev follows_dollar : String → Bool
follows_dollar [] = false
follows_dollar (c ∷ s) = is_word (code c) || eqb (code c) b'{' && begins_word s

-- re.search(r"\$\{?\w+\}?", raw)
unfoldable pub has_reference : String → Bool
unfolding is_word
has_reference [] = false
has_reference (c ∷ s) = eqb (code c) b'$' && follows_dollar s || has_reference s

module _ (environ : Dict String) where
  -- os.getenv(name, "").strip()
  unfoldable pub raw_env : String → String
  unfolding get strip
  raw_env name = strip (get_or environ name "")

  unfoldable pub str_env : String → String → String
  unfolding raw_env has_reference is_empty
  str_env name default =
      if is_empty (raw_env name) || has_reference (raw_env name) then default else raw_env name

  unfoldable pub int_env : String → ℤ → Result ℤ
  unfolding raw_env has_reference is_empty int_of_text
  int_env name default =
      if is_empty (raw_env name) || has_reference (raw_env name)
      then ok default
      else int_of_text (raw_env name)

  unfoldable pub bool_env : String → Bool → Bool
  unfolding str_env contains lower
  bool_env name default =
      contains ("1" ∷ "true" ∷ "yes" ∷ "on" ∷ [])
        (lower (str_env name (if default then "true" else "false")))

-- weak_secret_reason, `none` for the empty text. `hmac12` is the first 12 digits of the HMAC under the
-- fixed salt.
pub record Hygiene : Type 0 where
  pub hmac12 : String → String
  pub known_weak : List String
  pub min_length : ℕ

module _ (hygiene : Hygiene) where
  abbrev pub secret_text : Option String → String
  secret_text none = ""
  secret_text (some value) = strip value

  unfoldable pub weak_secret_reason : Option String → Option String
  unfolding strip is_empty lower contains take_text text_of_int concat
  weak_secret_reason value =
      let text = secret_text value in
      if is_empty text
      then some "is empty"
      else if contains hygiene.known_weak (hygiene.hmac12 (lower text))
          || hygiene.hmac12 (take_text 8 (lower text)) == hygiene.hmac12 "changeme"
      then some "is a well-known sample/default value"
      else if ltb (count text) hygiene.min_length
      then some
          (concat ("is shorter than " ∷ text_of_int (pos hygiene.min_length) ∷ " characters" ∷ []))
      else none

  abbrev pub add_problem : String → Option String → List String → List String
  add_problem name none more = more
  add_problem name (some why) more = concat (name ∷ " " ∷ why ∷ []) ∷ more

  -- problems, for the secrets by their names
  unfoldable pub problems : List (String × String) → List String
  unfolding weak_secret_reason
  problems [] = []
  problems ((name, value) ∷ rest) =
      add_problem name (weak_secret_reason (some value)) (problems rest)

-- the settings that check_secrets reads
pub record Passwords : Type 0 where
  pub rabbitmq_password : String
  pub mariadb_password : String
  pub swift_enabled : Bool
  pub swift_key : String
  pub allow_default_secrets : Bool

unfoldable pub required_secrets : Passwords → List (String × String)
required_secrets p =
    ("RABBITMQ_PASSWORD", p.rabbitmq_password)
    ∷ ("MARIADB_PASSWORD", p.mariadb_password)
    ∷ (if p.swift_enabled then ("SWIFT_KEY", p.swift_key) ∷ [] else [])

abbrev pub refuse_for : Bool → List String → Result (Unit {0})
refuse_for allow [] = ok tt
refuse_for true (_ ∷ _) = ok tt
refuse_for false (_ ∷ _) = raise runtime_error

unfoldable pub check_secrets : Hygiene → Passwords → Result (Unit {0})
unfolding problems required_secrets
check_secrets hygiene p = refuse_for p.allow_default_secrets (problems hygiene (required_secrets p))

-- the hosts of get_connection: what stands before the first colon, and the port between it and the next
abbrev first_part : List String → String
first_part [] = ""
first_part (part ∷ parts) = part

abbrev second_part : List String → String
second_part [] = ""
second_part (part ∷ parts) = first_part parts

unfoldable pub broker_address : ℤ → String → Result (String × ℤ)
unfolding split has_char int_of_text
broker_address default_port h =
    (if has_char b':' h then int_of_text (second_part (split b':' h)) else ok default_port)
    >>= λ port. ok (first_part (split b':' h), port)

unfoldable pub addresses_of : ℤ → List String → Result (List (String × ℤ))
unfolding broker_address
addresses_of default_port [] = ok []
addresses_of default_port (h ∷ hosts) = broker_address default_port h >>= λ address.
    addresses_of default_port hosts >>= λ rest. ok (address ∷ rest)

-- get_connection, up to the connection: RABBITMQ_HOSTS, or else RABBITMQ_HOST
unfoldable pub broker_addresses : ℤ → String → String → Result (List (String × ℤ))
unfolding addresses_of strip split is_empty keep
broker_addresses port host hosts =
    if is_empty hosts
    then ok ((host, port) ∷ [])
    else addresses_of port (keep (λ h. not (is_empty h)) (map strip (split b',' hosts)))
