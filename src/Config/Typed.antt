-- ===== src/Config/Typed.antt =====
-- Whatever ZooKeeper holds, a cached value has the type of its default, so that reading an integer key as
-- an integer does not raise.
use mathlib.Core.Bool.{false≢true}
use flow_first.Base.{
  String, Bool, true, false, Option, none, some, List, [], ◌∷◌, ◌==◌, ◌≡◌, refl, ap, ◌∙◌, arith,
  eq_iff, Bool-cases, inl, inr,
}
use flow_first.Base.Int.{ℤ}
use flow_first.Base.Dict.{Dict, get, put, get-put}
use flow_first.Base.Result.{ok, Result-cases}
use flow_first.Base.Text.{strip}
use flow_first.Numbers.{Number, int, float, Floats, int_of_text, int_of_number}
use flow_first.Config.{
  config_defaults, Cache, parse_as, parse_for, store, load, watch, start_watcher, load_all, get_int,
}

abbrev pub is_int : Number → Bool
is_int (int n) = true
is_int (float x) = false

-- every default has a cached value, of its type
Typed : Cache → Type 0
Typed cache =
    (key : String) (default : Number)
    → get config_defaults key ≡ some default
    → (v : Number) × (get cache key ≡ some v) × (is_int v ≡ is_int default)

module _ (floats : Floats) where
  parse_as-kind :
      (default : Number) (raw : String) (v : Number)
      → parse_as floats default raw ≡ some v
      → is_int v ≡ is_int default
  unfolding parse_as
  parse_as-kind (int n) raw v h = elim (Result-cases (int_of_text raw)) [
    | inl (m, e) ↦ ground arith
    | inr (x, e) ↦ ground arith
  ]
  parse_as-kind (float n) raw v h = elim (Result-cases (floats.of_text raw)) [
    | inl (m, e) ↦ ground arith
    | inr (x, e) ↦ ground arith
  ]

  parse_for-kind :
      (o : Option Number) (default : Number) (raw : String) (v : Number)
      → o ≡ some default
      → parse_for floats o raw ≡ some v
      → is_int v ≡ is_int default
  parse_for-kind none default raw v known h = ground arith
  parse_for-kind (some d) default raw v known h = ground (arith, parse_as-kind d raw v h)

  put-Typed :
      (cache : Cache) (key : String) (v : Number)
      → ((default : Number) → get config_defaults key ≡ some default → is_int v ≡ is_int default)
      → Typed cache
      → Typed (put cache key v)
  unfolding Typed
  put-Typed cache key v kind typed j default known = elim (Bool-cases (key == j)) [
    | inl same ↦
        let known' : get config_defaults key ≡ some default =
          ap (get config_defaults) ((eq_iff key j).0 same) ∙ known in
        (v, ground (arith, get-put cache key j v), kind default known')
    | inr other ↦
        let (u, cached, kept) = typed j default known in
        (u, ground (arith, get-put cache key j v), kept)
  ]

  stored-Typed :
      (cache : Cache) (key : String) (o : Option Number)
      → ((default v : Number)
          → get config_defaults key ≡ some default
          → o ≡ some v
          → is_int v ≡ is_int default)
      → Typed cache
      → Typed (store floats cache key o)
  stored-Typed cache key none kind typed = typed
  stored-Typed cache key (some v) kind typed =
      put-Typed cache key v (λ default known. kind default v known refl) typed

  parsed-Typed :
      (cache : Cache) (key text : String)
      → Typed cache
      → Typed (store floats cache key (parse_for floats (get config_defaults key) text))
  parsed-Typed cache key text typed =
      stored-Typed cache key (parse_for floats (get config_defaults key) text)
        (λ default v known h. parse_for-kind (get config_defaults key) default text v known h) typed

  load-Typed :
      (cache : Cache) (key : String) (text : Option String)
      → Typed cache
      → Typed (load floats cache key text)
  unfolding load
  load-Typed cache key none typed = typed
  load-Typed cache key (some text) typed = parsed-Typed cache key (strip text) typed

  watch-Typed :
      (cache : Cache) (key : String) (text : Option String)
      → Typed cache
      → Typed (watch floats cache key text)
  unfolding watch
  watch-Typed cache key none typed = typed
  watch-Typed cache key (some text) typed = parsed-Typed cache key (strip text) typed

  load_all-Typed :
      (entries : List (String × Number)) (cache : Cache) (znodes : Dict String)
      → Typed cache
      → Typed (load_all floats cache entries znodes)
  unfolding load_all
  load_all-Typed [] cache znodes typed = typed
  load_all-Typed ((key, default) ∷ rest) cache znodes typed =
      load_all-Typed rest (load floats cache key (get znodes key)) znodes
        (load-Typed cache key (get znodes key) typed)

  -- The states of a watcher's cache: after the start on any znodes, and after any delivery to a watch.
  pub data Reached : Cache → Type 0 where
    started : (znodes : Dict String) → Reached (start_watcher floats znodes)
    delivered :
        {cache : Cache} (key : String) (text : Option String)
        → Reached cache
        → Reached (watch floats cache key text)

  Reached-Typed : {cache : Cache} → Reached cache → Typed cache
  unfolding start_watcher Typed
  Reached-Typed (started znodes) =
      load_all-Typed config_defaults config_defaults znodes
        λ key default known. (default, known, refl)
  Reached-Typed (delivered {cache = cache} key text before) =
      watch-Typed cache key text (Reached-Typed before)

  read_int :
      (cache : Cache) (key : String) (v : Number)
      → get cache key ≡ some v
      → is_int v ≡ true
      → (m : ℤ) × (get cache key ≡ some (int m)) × (get_int floats cache key ≡ ok m)
  unfolding get_int int_of_number
  read_int cache key (float x) cached kind = absurd (false≢true kind)
  read_int cache key (int m) cached kind = (m, cached, ground arith)

  -- In every state that a watcher's cache reaches, whatever texts ZooKeeper held or holds, reading a key
  -- whose default is an integer returns the cached integer, and does not raise.
  pub Reached-get_int :
      {cache : Cache} (key : String) (n : ℤ)
      → Reached cache
      → get config_defaults key ≡ some (int n)
      → (m : ℤ) × (get cache key ≡ some (int m)) × (get_int floats cache key ≡ ok m)
  unfolding Typed
  Reached-get_int {cache = cache} key n reached known =
      let (v, cached, kind) = Reached-Typed reached key (int n) known in
      read_int cache key v cached kind
