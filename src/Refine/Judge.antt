-- ===== src/Refine/Judge.antt =====
-- `can_be_granted` says yes only where the lock fits, and what it changes on the way is a step of
-- the table: nothing, or a demotion to NL.
use lockify.Base.{
  ℕ, ◌≡◌, refl, Bool, true, false, not, ◌&&◌, if◌then◌else◌, arith, update, Bool-cases, inl, inr,
  Option-cases,
}
use lockify.Modes.{Mode, iv, mode_eq}
use lockify.State.{State, modify, can_be_queued}
use lockify.State.Set.{set_rqmode, set_demoted, set_altmode}
use lockify.Spec.{here, next, demote}
use lockify.Grant.{
  Verdict, grantable, try_alt, alt_mode, can_be_granted, conversion_deadlock_detect,
}
use lockify.Refine.Relation.{Inv, Refines, Refines-refl}
use lockify.Refine.Grant.{Fits, grantable-Fits}

pub record Judged (s : State) (i : ℕ) (t : State) (ok : Bool) : Type 0 where
  pub refines : Refines s t
  pub fits : ok ≡ true → Fits t i (t.lkbs i).rqmode

Judged-no : (s t : State) (i : ℕ) → Refines s t → Judged s i t false
Judged-no s t i r = record { refines = r; fits = λ e. cc }

not_grantable-expedite :
    (s : State) (i : ℕ) (now recover : Bool)
    → grantable s i now recover ≡ false
    → (s.lkbs i).exflags.expedite ≡ false
unfolding grantable
not_grantable-expedite s i now recover h = ground arith

-- A state in which only the request of lock `i`, which is not expedited, is another.
alter-Inv :
    (s : State) (i : ℕ) (alt : Mode)
    → (s.lkbs i).exflags.expedite ≡ false
    → Inv s
    → Inv (modify s i (set_rqmode alt))
unfolding set_rqmode
alter-Inv s i alt x v = record {
  listed = λ j h. ground (arith, v.listed j);
  mild = λ j y. ground (arith, v.mild j);
}

altered-Refines :
    (s : State) (i : ℕ) (alt : Mode)
    → (s.lkbs i).exflags.expedite ≡ false
    → Inv s
    → Refines s (modify s i (set_altmode alt))
unfolding set_altmode
altered-Refines s i alt x v = record {
  steps = here (λ j. ground arith);
  inv = record {
    listed = λ j h. ground (arith, v.listed j);
    mild = λ j y. ground (arith, v.mild j);
  };
}

altered-Fits :
    (s : State) (i : ℕ) (alt : Mode)
    → Fits (modify s i (set_rqmode alt)) i (update s.lkbs i (set_rqmode alt (s.lkbs i)) i).rqmode
    → Fits (modify s i (set_altmode alt)) i (update s.lkbs i (set_altmode alt (s.lkbs i)) i).rqmode
unfolding set_rqmode set_altmode
altered-Fits s i alt f j ne = ground (arith, f j ne)

demoted-Refines :
    (s : State) (i : ℕ)
    → mode_eq (s.lkbs i).grmode iv ≡ false
    → Inv s
    → Refines s (modify s i set_demoted)
unfolding set_demoted
demoted-Refines s i h v = record {
  steps = next (here (λ j. refl)) (demote i (λ j. ground arith));
  inv = record {
    listed = λ j e. ground (arith, v.listed j);
    mild = λ j y. ground (arith, v.mild j);
  };
}

try_alt-Judged :
    (s : State) (i : ℕ) (now : Bool)
    → (s.lkbs i).exflags.expedite ≡ false
    → Inv s
    → Judged s i (try_alt s i now).0 (try_alt s i now).1
unfolding try_alt
try_alt-Judged s i now x v = elim (Option-cases (alt_mode (s.lkbs i))) [
  | inl none_left ↦ rw (none_left, try_alt) (Judged-no s s i (Refines-refl s v))
  | inr (alt, e) ↦ elim (Bool-cases (grantable (modify s i (set_rqmode alt)) i now false)) [
    | inl yes_alt ↦
        rw (e, yes_alt, try_alt)
          (record {
            refines = altered-Refines s i alt x v;
            fits = λ _. altered-Fits s i alt (
                grantable-Fits (modify s i (set_rqmode alt)) i now false (alter-Inv s i alt x v)
                  yes_alt);
          })
    | inr no_alt ↦ rw (e, no_alt, try_alt) (Judged-no s s i (Refines-refl s v))
  ]
]

Judged-if :
    {s : State} {i : ℕ} (x y : Verdict) (b : Bool)
    → (b ≡ true → Judged s i x.after x.ok)
    → (b ≡ false → Judged s i y.after y.ok)
    → let v : Verdict = if b then x else y in Judged s i v.after v.ok
Judged-if x y true p q = p refl
Judged-if x y false p q = q refl

pub can_be_granted-Judged :
    (s : State) (i : ℕ) (now recover want_err : Bool)
    → Inv s
    → let v = can_be_granted s i now recover want_err in Judged s i v.after v.ok
unfolding can_be_granted
can_be_granted-Judged s i now recover want_err v =
    Judged-if _ _ (grantable s i now recover)
      (λ good. record {
        refines = Refines-refl s v;
        fits = λ _. grantable-Fits s i now recover v good;
      })
      λ bad.
        Judged-if _ _
          (not (mode_eq (s.lkbs i).grmode iv)
            && can_be_queued (s.lkbs i)
            && conversion_deadlock_detect s i)
          (λ dead.
            Judged-if _ _ (s.lkbs i).exflags.convdeadlk
              (λ _. Judged-no s _ i (demoted-Refines s i (ground arith) v))
              (λ _. Judged-no s s i (Refines-refl s v)))
          (λ _. try_alt-Judged s i now (not_grantable-expedite s i now recover bad) v)
