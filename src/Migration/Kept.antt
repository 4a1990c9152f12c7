-- ===== src/Migration/Kept.antt =====
-- The way back from the temporary queue in scripts/migrate_queue_type.py, however its requests are answered.
use flow_first.Base.{
  ℕ, suc, ◌<◌, String, false, Option, none, some, List, ◌++◌, ◌≡◌, refl, sym, ap, subst, ◌∙◌, arith,
  ◌==◌, length, length-append,
}
use flow_first.Base.Dict.{get}
use flow_first.Migration.{Kind, Queues, Broker, Ended, Script, give, ◌>>=◌, ◌>>◌, declare, exists}
use flow_first.Migration.Script.{drain, temp_of, copy_back}
use flow_first.Migration.Hoare.{Runs, weaken-Runs, give-Runs, bind-Runs}
use flow_first.Migration.Requests.{
  messages_of, messages_in, kind_in, Kept, reflexive-Kept, transitive-Kept, swap-Kept, distinct-sym,
  Both,
}
use flow_first.Migration.Moves.{append-nil}
use flow_first.Migration.Drains.{Drained, counts-none, drain-Moves}
use flow_first.Migration.Declares.{
  Fit, created, created-messages, created-kind, Declares, declare-Runs, Finds, exists-Runs,
}

module _ (name : String) (target : Kind) (rounds : ℕ) (apart : (name == temp_of name) ≡ false) where
  abbrev back : (temp_of name == name) ≡ false
  back = distinct-sym name (temp_of name) apart

  -- in the two queues of `name`
  abbrev pub Does : {A : Type 0} → (A → Queues → Type 0) → Broker → Ended A × Broker → Type 0
  Does Post b r = Runs (Kept name (temp_of name)) Post b r

  pub bind-Does :
      {A B : Type 0} (First : A → Queues → Type 0) (Post : B → Queues → Type 0) (m : Script A)
      (rest : A → Script B) (b : Broker)
      → Does First b (m b)
      → ((a : A) (c : Broker) → First a c.queues → Does Post c (rest a c))
      → Does Post b ((m >>= rest) b)
  bind-Does First Post m rest b first next =
      bind-Runs (Kept name (temp_of name)) (reflexive-Kept name (temp_of name))
        (transitive-Kept name (temp_of name)) First Post m rest b first (λ a c rel h. next a c h)

  pub give-Does :
      {A : Type 0} (Post : A → Queues → Type 0) (a : A) (b : Broker)
      → Post a b.queues
      → Does Post b (give a b)
  give-Does Post a b h =
      give-Runs (Kept name (temp_of name)) (reflexive-Kept name (temp_of name))
        (transitive-Kept name (temp_of name)) Post a b h

  -- the messages of the queue, then those of its temporary one
  abbrev pub together : Queues → List String
  together q = messages_in q name ++ messages_in q (temp_of name)

  abbrev pub Ready : List String → Queues → Type 0
  Ready whole q = (together q ≡ whole) × Fit target (get q name)

  abbrev Filled : List String → Queues → Type 0
  Filled whole q = (together q ≡ whole) × (kind_in q name ≡ some target)

  -- the queue has the type and the messages, and the temporary queue is gone
  abbrev pub Migrated : List String → Queues → Type 0
  Migrated whole q =
      (get q (temp_of name) ≡ none) × (messages_in q name ≡ whole) × (kind_in q name ≡ some target)

  back-Does :
      (whole : List String) (b : Broker)
      → Filled whole b.queues
      → length whole < suc rounds
      → Does (λ _ q. Migrated whole q) b (drain (suc rounds) (suc rounds) (temp_of name) name 0 b)
  back-Does whole b (all, kind) enough =
      weaken-Runs (Both (temp_of name) name back) (Kept name (temp_of name))
        (Drained (temp_of name) name back (together b.queues)) (λ _ q. Migrated whole q) b
        (drain (suc rounds) (suc rounds) (temp_of name) name 0 b)
        (λ q rel. swap-Kept (temp_of name) name b.queues q rel.0)
        (λ a q rel left. (left.0, left.1 ∙ all, rel.1 ∙ kind))
        (drain-Moves (temp_of name) name back rounds (suc rounds) 0
          (messages_in b.queues (temp_of name)) (messages_in b.queues name) b (refl, refl)
          (omega (
            arith,
            ap length all,
            length-append (messages_in b.queues name) (messages_in b.queues (temp_of name)),
          )))

  found-Does :
      (whole : List String) (found : Option (ℕ × ℕ)) (p : Queues) (b : Broker)
      → Filled whole p
      → length whole < suc rounds
      → Finds name (temp_of name) (temp_of name) p found b.queues
      → Does (λ _ q. Migrated whole q) b (copy_back (suc rounds) name found b)
  found-Does whole none p b (all, kind) enough (found, same) =
      give-Does {A = ℕ} (λ _ q. Migrated whole q) 0 b
        (subst (Migrated whole) same (
          counts-none (get p (temp_of name)) found,
          sym (append-nil (messages_in p name))
              ∙ ap (λ xs. messages_in p name ++ xs)
                  (sym (ap messages_of (counts-none (get p (temp_of name)) found)))
              ∙ all,
          kind,
        ))
  found-Does whole (some n) p b filled enough (found, same) =
      back-Does whole b (subst (Filled whole) same filled) enough

  -- the statements that follow the copy
  pub finish-Does :
      (whole : List String) (moved : ℕ) (b : Broker)
      → Ready whole b.queues
      → length whole < suc rounds
      → Does
          (λ _ q. Migrated whole q)
          b
          ((declare name target
              >> (exists (temp_of name) >>= copy_back (suc rounds) name)
              >> give moved)
            b)
  finish-Does whole moved b (all, fit) enough =
      bind-Does (λ _ q. Migrated whole q) (λ _ q. Migrated whole q)
        (declare name target >> (exists (temp_of name) >>= copy_back (suc rounds) name))
        (λ _. give moved) b
        (bind-Does (Declares target name name (temp_of name) (λ j h h'. h) b.queues)
          (λ _ q. Migrated whole q) (declare name target)
          (λ _. exists (temp_of name) >>= copy_back (suc rounds) name) b
          (declare-Runs target name name (temp_of name) (λ j h h'. h) b)
          (λ state c declared.
            bind-Does (Finds name (temp_of name) (temp_of name) c.queues) (λ _ q. Migrated whole q)
              (exists (temp_of name)) (copy_back (suc rounds) name) c
              (exists-Runs name (temp_of name) (temp_of name) c)
              (λ found d seen.
                found-Does whole found c.queues d
                  (subst (Filled whole) declared.1 (
                    ap (λ xs. xs ++ messages_in (created target name b.queues) (temp_of name))
                          (created-messages target name b.queues name)
                        ∙ ap (λ xs. messages_in b.queues name ++ xs)
                            (created-messages target name b.queues (temp_of name))
                        ∙ all,
                    created-kind target name b.queues fit,
                  ))
                  enough seen)))
        (λ n e migrated. give-Does (λ _ q. Migrated whole q) moved e migrated)
