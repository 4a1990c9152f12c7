-- ===== src/Migration/Carried.antt =====
-- The copy of a queue to its temporary queue and back, by scripts/migrate_queue_type.py.
use flow_first.Base.{
  ℕ, suc, ◌<◌, String, false, Option, none, some, List, ◌++◌, ◌≡◌, refl, sym, ap, subst, ◌∙◌, inl,
  inr, arith, ◌==◌, length, length-append,
}
use flow_first.Base.Dict.{get}
use flow_first.Migration.{
  Kind, Queues, Broker, give, ◌>>=◌, ◌>>◌, Declared, declared, declare, exists,
}
use flow_first.Migration.Script.{
  drain, temp_of, copy_out, copy_back, carry_over, migrate_found, migrate_one,
}
use flow_first.Migration.Hoare.{weaken-Runs}
use flow_first.Migration.Requests.{messages_of, messages_in, kind_in, Kept, Both}
use flow_first.Migration.Moves.{append-nil, Holds}
use flow_first.Migration.Drains.{Drained, counts-none, drain-Moves}
use flow_first.Migration.Declares.{
  declared-Fit, created, created-messages, created-kind, Declares, declare-Runs, Finds, exists-Runs,
}
use flow_first.Migration.Kept.{Does, bind-Does, give-Does, together, Ready, Migrated, finish-Does}

module _ (name : String) (target : Kind) (rounds : ℕ) (apart : (name == temp_of name) ≡ false) where
  -- the messages in the order in which a migration leaves them
  abbrev pub arranged : Declared → Queues → List String
  arranged (Declared.fits messages consumers) p = together name target rounds apart p
  arranged Declared.mismatch p = messages_in p (temp_of name) ++ messages_in p name

  -- what the answer to the first declaration says
  abbrev Starts : Declared → Queues → Type 0
  Starts (Declared.fits messages consumers) p = kind_in p name ≡ some target
  Starts Declared.mismatch p = Unit {0}

  out-Does :
      (state : Declared) (b : Broker)
      → Starts state b.queues
      → length (together name target rounds apart b.queues) < suc rounds
      → Does name target rounds apart
          (λ _ q. Ready name target rounds apart (arranged state b.queues) q)
          b
          (copy_out (suc rounds) name target state b)
  out-Does (Declared.fits messages consumers) b kind enough =
      give-Does name target rounds apart {A = ℕ}
        (λ _ q. Ready name target rounds apart (together name target rounds apart b.queues) q) 0 b
        (refl, inr kind)
  out-Does Declared.mismatch b kind enough =
      bind-Does name target rounds apart
        (Declares target (temp_of name) name (temp_of name) (λ j h h'. h') b.queues)
        (λ _ q. Ready name target rounds apart (arranged Declared.mismatch b.queues) q)
        (declare (temp_of name) target) (λ _. drain (suc rounds) (suc rounds) name (temp_of name) 0)
        b (declare-Runs target (temp_of name) name (temp_of name) (λ j h h'. h') b)
        (λ state c declared.
          weaken-Runs (Both name (temp_of name) apart) (Kept name (temp_of name))
            (Drained name (temp_of name) apart (arranged Declared.mismatch b.queues))
            (λ _ q. Ready name target rounds apart (arranged Declared.mismatch b.queues) q) c
            (drain (suc rounds) (suc rounds) name (temp_of name) 0 c) (λ q rel. rel.0)
            (λ a q rel left. (
              ap (λ xs. xs ++ messages_in q (temp_of name)) (ap messages_of left.0) ∙ left.1,
              inl left.0,
            ))
            (drain-Moves name (temp_of name) apart rounds (suc rounds) 0 (messages_in b.queues name)
              (messages_in b.queues (temp_of name)) c
              (subst
                (λ q.
                  Holds name (temp_of name) apart (messages_in b.queues name)
                    (messages_in b.queues (temp_of name)) q)
                declared.1
                (
                  created-messages target (temp_of name) b.queues name,
                  created-messages target (temp_of name) b.queues (temp_of name),
                ))
              (omega (
                arith,
                enough,
                length-append (messages_in b.queues name) (messages_in b.queues (temp_of name)),
              ))))

  length-arranged :
      (state : Declared) (p : Queues)
      → length (together name target rounds apart p) < suc rounds
      → length (arranged state p) < suc rounds
  length-arranged (Declared.fits messages consumers) p enough = enough
  length-arranged Declared.mismatch p enough = omega (
    arith,
    enough,
    length-append (messages_in p name) (messages_in p (temp_of name)),
    length-append (messages_in p (temp_of name)) (messages_in p name),
  )

  carry-Does :
      (state : Declared) (b : Broker)
      → Starts state b.queues
      → length (together name target rounds apart b.queues) < suc rounds
      → Does name target rounds apart
          (λ _ q. Migrated name target rounds apart (arranged state b.queues) q)
          b
          (carry_over (suc rounds) name target state b)
  carry-Does state b starts enough =
      bind-Does name target rounds apart
        (λ _ q. Ready name target rounds apart (arranged state b.queues) q)
        (λ _ q. Migrated name target rounds apart (arranged state b.queues) q)
        (copy_out (suc rounds) name target state)
        (λ moved.
          declare name target
          >> (exists (temp_of name) >>= copy_back (suc rounds) name)
          >> give moved)
        b (out-Does state b starts enough)
        (λ moved c ready.
          finish-Does name target rounds apart (arranged state b.queues) moved c ready
            (length-arranged state b.queues enough))

  carried :
      (state : Declared) (p : Queues) (c : Broker)
      → Starts state p
      → length (together name target rounds apart p) < suc rounds
      → p ≡ c.queues
      → Does name target rounds apart
          (λ _ q. Migrated name target rounds apart (arranged state p) q)
          c
          (carry_over (suc rounds) name target state c)
  carried state p c starts enough same =
      subst
        (λ xs.
          Does name target rounds apart (λ _ q. Migrated name target rounds apart xs q) c
            (carry_over (suc rounds) name target state c))
        (ap (arranged state) (sym same))
        (carry-Does state c (subst (Starts state) same starts)
          (subst (λ q. length (together name target rounds apart q) < suc rounds) same enough))

  migrate_found-Does :
      (state : Declared) (found : Option (ℕ × ℕ)) (p : Queues) (c : Broker)
      → Starts state p
      → length (together name target rounds apart p) < suc rounds
      → Finds name (temp_of name) (temp_of name) p found c.queues
      → Does name target rounds apart
          (λ _ q. Migrated name target rounds apart (arranged state p) q)
          c
          (migrate_found (suc rounds) name target false state found c)
  migrate_found-Does (Declared.fits messages consumers) none p c kind enough (found, same) =
      give-Does name target rounds apart {A = ℕ}
        (λ _ q. Migrated name target rounds apart (together name target rounds apart p) q) 0 c
        (subst (Migrated name target rounds apart (together name target rounds apart p)) same (
          counts-none (get p (temp_of name)) found,
          sym (append-nil (messages_in p name))
              ∙ ap (λ xs. messages_in p name ++ xs)
                  (sym (ap messages_of (counts-none (get p (temp_of name)) found))),
          kind,
        ))
  migrate_found-Does (Declared.fits messages consumers) (some n) p c kind enough (found, same) =
      carried (Declared.fits messages consumers) p c kind enough same
  migrate_found-Does Declared.mismatch found p c starts enough (seen, same) =
      carried Declared.mismatch p c starts enough same

  created-Starts :
      (state : Declared) (p : Queues)
      → declared target (get p name) ≡ state
      → Starts state (created target name p)
  created-Starts (Declared.fits messages consumers) p e =
      created-kind target name p (declared-Fit target (get p name) messages consumers e)
  created-Starts Declared.mismatch p e = tt

  together-created :
      (p : Queues)
      → together name target rounds apart (created target name p)
        ≡ together name target rounds apart p
  together-created p =
      ap (λ xs. xs ++ messages_in (created target name p) (temp_of name))
        (created-messages target name p name)
      ∙ ap (λ xs. messages_in p name ++ xs) (created-messages target name p (temp_of name))

  arranged-created :
      (state : Declared) (p : Queues) → arranged state (created target name p) ≡ arranged state p
  arranged-created (Declared.fits messages consumers) p = together-created p
  arranged-created Declared.mismatch p =
      ap (λ xs. xs ++ messages_in (created target name p) name)
        (created-messages target name p (temp_of name))
      ∙ ap (λ xs. messages_in p (temp_of name) ++ xs) (created-messages target name p name)

  pub one-Does :
      (b : Broker)
      → length (together name target rounds apart b.queues) < suc rounds
      → Does name target rounds apart
          (λ _ q.
            Migrated name target rounds apart
              (arranged (declared target (get b.queues name)) b.queues)
              q)
          b
          (migrate_one (suc rounds) name target false b)
  unfolding migrate_one
  one-Does b enough =
      bind-Does name target rounds apart
        (Declares target name name (temp_of name) (λ j h h'. h) b.queues)
        (λ _ q.
          Migrated name target rounds apart
            (arranged (declared target (get b.queues name)) b.queues) q)
        (declare name target)
        (λ state. exists (temp_of name) >>= migrate_found (suc rounds) name target false state) b
        (declare-Runs target name name (temp_of name) (λ j h h'. h) b)
        (λ state c stated.
          bind-Does name target rounds apart (Finds name (temp_of name) (temp_of name) c.queues)
            (λ _ q.
              Migrated name target rounds apart
                (arranged (declared target (get b.queues name)) b.queues) q)
            (exists (temp_of name)) (migrate_found (suc rounds) name target false state) c
            (exists-Runs name (temp_of name) (temp_of name) c)
            (λ found d seen.
              subst
                (λ xs.
                  Does name target rounds apart (λ _ q. Migrated name target rounds apart xs q) d
                    (migrate_found (suc rounds) name target false state found d))
                (ap (arranged state) (sym stated.1)
                  ∙ arranged-created state b.queues
                  ∙ ap (λ s. arranged s b.queues) (sym stated.0))
                (migrate_found-Does state found c.queues d
                  (subst (Starts state) stated.1 (created-Starts state b.queues stated.0))
                  (subst (λ q. length (together name target rounds apart q) < suc rounds) stated.1
                    (rw (together-created b.queues) enough))
                  seen)))
