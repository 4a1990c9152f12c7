-- ===== src/Db/Hosts.antt =====
-- The connection of src/db/db.py: the hosts in the order in which they are tried, and the two loops.
use flow_first.Base.{
  ℕ, zero, suc, ◌<◌, ◌≤◌, ◌+◌, String, Bool, true, false, ◌&&◌, not, Option, none, some, List, [],
  ◌∷◌, ◌++◌, ◌≡◌, refl, subst, ◌⊎◌, inl, inr, arith, if◌then◌else◌, contains, Member, here, later,
  Bool-cases,
}
use flow_first.Base.Text.{split, strip, is_empty}

-- for h in MARIADB_HOSTS.split(","): append what is new
add_hosts : List String → List String → List String
unfolding strip is_empty contains
add_hosts [] hosts = hosts
add_hosts (h ∷ rest) hosts =
    let more = add_hosts rest (hosts ++ strip h ∷ []) in
    let same = add_hosts rest hosts in
    if not (is_empty (strip h)) && not (contains hosts (strip h)) then more else same

abbrev or_localhost : List String → List String
or_localhost [] = "localhost" ∷ []
or_localhost (h ∷ hosts) = h ∷ hosts

abbrev one_host : Bool → String → List String
one_host true host = []
one_host false host = host ∷ []

-- hosts_to_try, from MARIADB_HOST and MARIADB_HOSTS
unfoldable pub hosts_to_try : String → String → List String
unfolding add_hosts is_empty split
hosts_to_try host hosts = or_localhost (
    if is_empty hosts
    then one_host (is_empty host) host
    else add_hosts (split b',' hosts) (one_host (is_empty host) host))

-- Does pymysql.connect succeed, in an attempt, with a host? The answer is the host connected to.
module _ (connects : ℕ → String → Bool) where
  try_hosts : ℕ → List String → Option String
  try_hosts attempt [] = none
  try_hosts attempt (h ∷ hosts) =
      let rest = try_hosts attempt hosts in if connects attempt h then some h else rest

  -- `for attempt in range(max_retries)`, from the given attempt on; `none` is the ConnectionError
  unfoldable pub connect_from : ℕ → ℕ → List String → Option String
  unfolding try_hosts
  connect_from zero attempt hosts = none
  connect_from (suc left) attempt hosts =
      let rest = connect_from left (suc attempt) hosts in
      elim (try_hosts attempt hosts) [ some h ↦ some h | none ↦ rest ]

  unfoldable pub get_db_connection : ℕ → String → String → Option String
  unfolding connect_from hosts_to_try
  get_db_connection max_retries host hosts = connect_from max_retries 0 (hosts_to_try host hosts)

module _ (connects : ℕ → String → Bool) where
  refused_all :
      (attempt : ℕ) (host : String) (hosts : List String) (h : String)
      → connects attempt host ≡ false
      → ((g : String) → Member g hosts → connects attempt g ≡ false)
      → Member h (host ∷ hosts)
      → connects attempt h ≡ false
  refused_all attempt host hosts h bad refused (here e) = rw (e, bad)
  refused_all attempt host hosts h bad refused (later m) = refused h m

  -- in one attempt: the host found accepts, or none of the hosts does
  try_hosts-exact :
      (attempt : ℕ) (hosts : List String)
      → ((h : String) × (try_hosts connects attempt hosts ≡ some h)
          × Member h hosts
          × (connects attempt h ≡ true))
        ⊎ (try_hosts connects attempt hosts ≡ none)
          × ((h : String) → Member h hosts → connects attempt h ≡ false)
  unfolding try_hosts
  try_hosts-exact attempt [] = inr (refl, λ h m. elim m [ ])
  try_hosts-exact attempt (host ∷ hosts) = elim (Bool-cases (connects attempt host)) [
    | inl good ↦ inl (host, ground arith, here refl, good)
    | inr bad ↦ elim (try_hosts-exact attempt hosts) [
      | inl (h, found, m, good) ↦ inl (h, ground arith, later m, good)
      | inr (none_found, refused) ↦
          inr (ground arith, λ h m. refused_all attempt host hosts h bad refused m)
    ]
  ]

  le_split : (a b : ℕ) → a ≤ b → (a ≡ b) ⊎ (suc a ≤ b)
  le_split a b h = ground arith

  -- an attempt of those between the first and the end, and a host of the list, that accept
  abbrev pub Reachable : ℕ → ℕ → List String → String → Type 0
  Reachable first left hosts h =
      (k : ℕ) × (first ≤ k) × (k < first + left) × Member h hosts × (connects k h ≡ true)

  connect_from-exact :
      (left first : ℕ) (hosts : List String)
      → ((h : String) × (connect_from connects left first hosts ≡ some h)
          × Reachable first left hosts h)
        ⊎ (connect_from connects left first hosts ≡ none)
          × ((k : ℕ) (h : String)
              → first ≤ k
              → k < first + left
              → Member h hosts
              → connects k h ≡ false)
  unfolding connect_from
  connect_from-exact zero first hosts = inr (refl, λ k h low high m. absurd (omega arith))
  connect_from-exact (suc left) first hosts = elim (try_hosts-exact first hosts) [
    | inl (h, found, m, good) ↦ inl (h, ground arith, (first, omega arith, omega arith, m, good))
    | inr (none_found, refused) ↦ elim (connect_from-exact left (suc first) hosts) [
      | inl (h, found, (k, low, high, m, good)) ↦
          inl (h, ground arith, (k, omega arith, omega arith, m, good))
      | inr (none_later, refused_later) ↦ inr (
        ground arith,
        λ k h low high m. elim (le_split first k low) [
          | inl same ↦ subst (λ a. connects a h ≡ false) same (refused h m)
          | inr more ↦ refused_later k h more (omega arith) m
        ],
      )
    ]
  ]

  -- The connection goes to a host of the list that accepted in one of the attempts; and if there is none,
  -- every host of the list refused in every attempt.
  pub get_db_connection-exact :
      (max_retries : ℕ) (host hosts : String)
      → ((h : String) × (get_db_connection connects max_retries host hosts ≡ some h)
          × Reachable 0 max_retries (hosts_to_try host hosts) h)
        ⊎ (get_db_connection connects max_retries host hosts ≡ none)
          × ((k : ℕ) (h : String)
              → k < max_retries
              → Member h (hosts_to_try host hosts)
              → connects k h ≡ false)
  unfolding get_db_connection
  get_db_connection-exact max_retries host hosts =
      elim (connect_from-exact max_retries 0 (hosts_to_try host hosts)) [
        | inl found ↦ inl found
        | inr (none_found, refused) ↦
            inr (none_found, λ k h high m. refused k h (omega arith) (omega arith) m)
      ]
