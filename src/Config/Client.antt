-- ===== src/Config/Client.antt =====
-- The ZooKeeper client of src/zookeeper/zk.py: get_client, which opens a connection when there is none and
-- seeds the configuration then.
use flow_first.Base.{
  ℕ, zero, suc, String, Bool, true, false, List, [], ◌∷◌, ◌≡◌, refl, sym, ap, subst, ◌∙◌, ◌⊎◌, inl,
  inr, Option, none, some, Member, here, later, arith, ◌==◌, eq_iff, if◌then◌else◌,
}
use flow_first.Base.Dict.{Dict, get, put, get-put, is_some}
use flow_first.Base.Result.{Result, ok, raise, zookeeper_error}
use flow_first.Numbers.{Number, text_of_number}
use flow_first.World.{World, Action, give, lift, ◌>>=◌, ◌>>◌, call_with, call}
use flow_first.Config.{config_defaults}

-- calls that change nothing in the world that is modelled
unfoldable pub requests : ℕ → Action (Unit {0})
requests zero = give tt
requests (suc n) = call zookeeper_error (λ w. w) >> requests n

abbrev pub create_unless : Bool → String → Number → Action (Unit {0})
create_unless true key value = give tt
create_unless false key value =
    call zookeeper_error λ w. record w { config = put w.config key (text_of_number value) }

-- if not zk.exists(path): zk.create(path, str(value).encode(), makepath=True)
abbrev pub seed_key : String → Number → Action (Unit {0})
seed_key key value = requests 1 >> λ w. create_unless (is_some (get w.config key)) key value w

-- the loop of _seed_default_config
unfoldable pub seed_default_config : Dict Number → Action (Unit {0})
unfolding requests get put text_of_number
seed_default_config [] = give tt
seed_default_config ((key, value) ∷ defaults) = seed_key key value >> seed_default_config defaults

-- the six calls of ensure_path, then the defaults
abbrev pub ensure_base_paths : Action (Unit {0})
ensure_base_paths = requests 6 >> seed_default_config config_defaults

-- get_client, by whether there is no connected client
unfoldable pub get_client : Bool → Action (Unit {0})
unfolding requests seed_default_config
get_client false = give tt
get_client true = requests 1 >> ensure_base_paths

-- A key keeps its text, or it had none and has its default's.
abbrev pub Seeded : Dict String → Dict String → Type 0
Seeded before after =
    (key : String)
    → (get after key ≡ get before key)
      ⊎ ((get before key ≡ none)
          × ((value : Number) × Member (key, value) config_defaults
              × (get after key ≡ some (text_of_number value))))

-- all but the counters, the calls that were made and the configuration
abbrev pub apart_of : World → World
apart_of w = record w { counters = []; faults = []; config = [] }

-- Nothing is changed but the counters, and the configuration only by defaults for absent keys.
abbrev pub Grows : World → World → Type 0
Grows w v = (apart_of v ≡ apart_of w) × Seeded w.config v.config

Seeded-trans : (a b c : Dict String) → Seeded a b → Seeded b c → Seeded a c
Seeded-trans a b c first second key = elim (second key) [
  | inl e ↦ elim (first key) [
    | inl f ↦ inl (e ∙ f)
    | inr (absent, (value, m, f)) ↦ inr (absent, (value, m, e ∙ f))
  ]
  | inr (absent, (value, m, e)) ↦ elim (first key) [
    | inl f ↦ inr (sym f ∙ absent, (value, m, e))
    | inr (x, (v, k, f)) ↦ ground arith
  ]
]

Grows-trans : (u v w : World) → Grows u v → Grows v w → Grows u w
Grows-trans u v w (p, s) (q, t) = (q ∙ p, Seeded-trans u.config v.config w.config s t)

pub Grows-same : (w v : World) → apart_of v ≡ apart_of w → v.config ≡ w.config → Grows w v
Grows-same w v p q = (p, λ key. inl (ap (λ c. get c key) q))

abbrev pub AllGrow : {A : Type 0} → Action A → Type 0
AllGrow m = (w : World) → Grows w (m w).1

module _ {A B : Type 0} where
  after-Grows :
      (r : Result A) (u v : World) (rest : A → Action B)
      → Grows u v
      → ((a : A) → AllGrow (rest a))
      → Grows u ((lift r >>= rest) v).1
  after-Grows (ok a) u v rest first next = Grows-trans u v (rest a v).1 first (next a v)
  after-Grows (raise e) u v rest first next = first

  pub bind-Grows :
      (m : Action A) (rest : A → Action B)
      → AllGrow m
      → ((a : A) → AllGrow (rest a))
      → AllGrow (m >>= rest)
  bind-Grows m rest first next w = after-Grows (m w).0 w (m w).1 rest (first w) next

call-Grows : AllGrow (call zookeeper_error (λ w. w))
call-Grows w = by_faults w.faults
  where
    by_faults : (fs : List Bool) → Grows w (call_with fs zookeeper_error (λ v. v) w).1
    by_faults [] = Grows-same w w refl refl
    by_faults (true ∷ fs) = Grows-same w (record w { faults = fs }) refl refl
    by_faults (false ∷ fs) = Grows-same w (record w { faults = fs }) refl refl

pub requests-Grows : (n : ℕ) → AllGrow (requests n)
unfolding requests
requests-Grows zero = λ w. Grows-same w w refl refl
requests-Grows (suc n) =
    bind-Grows (call zookeeper_error (λ w. w)) (λ _. requests n) call-Grows (λ _. requests-Grows n)

put-Seeded :
    (c : Dict String) (key : String) (value : Number)
    → is_some (get c key) ≡ false
    → Member (key, value) config_defaults
    → Seeded c (put c key (text_of_number value))
put-Seeded c key value h m j = by_test (key == j) refl
  where
    nothing : (o : Option String) → is_some o ≡ false → o ≡ none
    nothing none e = refl
    nothing (some x) e = ground arith

    text : String
    text = text_of_number value

    by_test :
        (b : Bool)
        → (key == j) ≡ b
        → (get (put c key text) j ≡ get c j)
          ⊎ ((get c j ≡ none)
              × ((v : Number) × Member (j, v) config_defaults
                  × (get (put c key text) j ≡ some (text_of_number v))))
    by_test true e =
        let same : key ≡ j = (eq_iff key j).0 e in
        inr (
          subst (λ k. get c k ≡ none) same (nothing (get c key) h),
          (
            value,
            subst (λ k. Member (k, value) config_defaults) same m,
            get-put c key j text ∙ ap (λ b. if b then some text else get c j) e,
          ),
        )
    by_test false e = inl (get-put c key j text ∙ ap (λ b. if b then some text else get c j) e)

create_unless-Grows :
    (b : Bool) (key : String) (value : Number) (w : World)
    → is_some (get w.config key) ≡ b
    → Member (key, value) config_defaults
    → Grows w (create_unless b key value w).1
create_unless-Grows true key value w h m = Grows-same w w refl refl
create_unless-Grows false key value w h m = by_faults w.faults
  where
    created : World → World
    created v = record v { config = put v.config key (text_of_number value) }

    by_faults : (fs : List Bool) → Grows w (call_with fs zookeeper_error created w).1
    by_faults [] = (refl, put-Seeded w.config key value h m)
    by_faults (true ∷ fs) = Grows-same w (record w { faults = fs }) refl refl
    by_faults (false ∷ fs) = (refl, put-Seeded w.config key value h m)

seed_default_config-Grows :
    (defaults : Dict Number)
    → ((entry : String × Number) → Member entry defaults → Member entry config_defaults)
    → AllGrow (seed_default_config defaults)
unfolding seed_default_config
seed_default_config-Grows [] inside = λ w. Grows-same w w refl refl
seed_default_config-Grows ((key, value) ∷ defaults) inside =
    bind-Grows (seed_key key value) (λ _. seed_default_config defaults)
      (bind-Grows (requests 1) (λ _ w. create_unless (is_some (get w.config key)) key value w)
        (requests-Grows 1)
        (λ _ w.
          create_unless-Grows (is_some (get w.config key)) key value w refl
            (inside (key, value) (here refl))))
      (λ _. seed_default_config-Grows defaults (λ entry m. inside entry (later m)))

pub get_client-Grows : (is_lost : Bool) → AllGrow (get_client is_lost)
unfolding get_client
get_client-Grows false = λ w. Grows-same w w refl refl
get_client-Grows true =
    bind-Grows (requests 1) (λ _. ensure_base_paths) (requests-Grows 1)
      (λ _.
        bind-Grows (requests 6) (λ _. seed_default_config config_defaults) (requests-Grows 6)
          (λ _. seed_default_config-Grows config_defaults (λ entry m. m)))
