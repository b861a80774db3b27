-- ===== src/Directory/Notified.antt =====
-- What a node hears of a name after another has notified the directory of it: fs/dlm/lock.c 892-1105
-- and 4756-4818.
use lockify.Base.{
  ℕ, zero, suc, ◌≡◌, refl, sym, ap, subst, ◌∙◌, Bool, true, false, not, ◌&&◌, none, some,
  if◌then◌else◌, ◌==◌, arith,
}
use lockify.State.Events.{node, is_success}
use lockify.Directory.{
  RsbTable, Reply, LookupFlags, rsb_of, pre_rsb_struct, get_rsb_struct, insert_toss, notify_toss,
  notify_loop, if_directory, dlm_master_lookup, dlm_master_notify,
}
use lockify.Directory.Known.{is_normal, if_directory-error}
use lockify.Directory.Agree.{dlm_master_notify-dlm_master_lookup}
use lockify.Directory.Told.{dlm_master_lookup-agrees}

Confirms : ℕ → Reply → Type 0
Confirms from r = is_success r.error ≡ true → r.r_nodeid ≡ some (node from)

if-Confirms :
    (from : ℕ) (x y : Reply) (b : Bool)
    → (b ≡ true → Confirms from x)
    → Confirms from y
    → Confirms from (if b then x else y)
if-Confirms from x y true f g = f refl
if-Confirms from x y false f g = g

notify_toss-Confirms :
    (retry : RsbTable → Reply) (from : ℕ) (t : RsbTable)
    → ((u : RsbTable) → Confirms from (retry u))
    → Confirms from (notify_toss retry from t)
unfolding notify_toss Confirms
notify_toss-Confirms retry from t again =
    if-Confirms from _ _
      (is_success (get_rsb_struct t).1
        && is_success
            (insert_toss (rsb_of (node from) from t.env.our_nodeid) (get_rsb_struct t).0).1)
      (λ _ _. refl) (again _)

-- Whatever the table, a notification that succeeds makes the node that sends it the master.
notify_loop-Confirms : (fuel from : ℕ) (t : RsbTable) → Confirms from (notify_loop fuel from t)
unfolding notify_loop Confirms
notify_loop-Confirms zero from t h = absurd (ground (arith, h))
notify_loop-Confirms (suc fuel) from s h =
    if-Confirms from _ _ (not (is_success (pre_rsb_struct s).1))
      (λ bad ok. absurd (ground (arith, bad, ok)))
      (notify_toss-Confirms (notify_loop fuel from) from (pre_rsb_struct s).0
        (notify_loop-Confirms fuel from))
      h

notify-Confirms :
    (fuel : ℕ) (t : RsbTable) (from len : ℕ) → Confirms from (dlm_master_notify fuel t from len)
unfolding dlm_master_notify Confirms
notify-Confirms fuel t from len h =
    ap (λ (r : Reply). r.r_nodeid) d
    ∙ notify_loop-Confirms fuel from t (sym (ap (λ (r : Reply). is_success r.error) d) ∙ h)
  where
    d : if_directory t from len (notify_loop fuel from t) ≡ notify_loop fuel from t
    d = if_directory-error t from len (notify_loop fuel from t) h

abbrev outside_recovery : LookupFlags
outside_recovery = record { recover_dir = false; recover_master = false }

-- If neither tree has the name, and a notification of a node whose id is not 0 and a lookup by
-- any node after it, in normal operation, both succeed, the notification is answered with the
-- notifying node as the master, and the lookup is told that node.
pub dlm_master_lookup-dlm_master_notify :
    (fuel fuel' : ℕ) (t : RsbTable) (a b len len' : ℕ) (f : LookupFlags)
    → t.keep ≡ none
    → t.toss ≡ none
    → (a == 0) ≡ false
    → is_normal f ≡ true
    → is_success (dlm_master_notify fuel t a len).error ≡ true
    → is_success (dlm_master_lookup fuel' (dlm_master_notify fuel t a len).after b len' f).error
      ≡ true
    → ((dlm_master_notify fuel t a len).r_nodeid ≡ some (node a))
      × ((dlm_master_lookup fuel' (dlm_master_notify fuel t a len).after b len' f).r_nodeid
          ≡ some (node a))
unfolding Confirms
dlm_master_lookup-dlm_master_notify fuel fuel' t a b len len' f k e z n h h' =
    (confirmed, subst Told same told ∙ confirmed)
  where
    confirmed : (dlm_master_notify fuel t a len).r_nodeid ≡ some (node a)
    confirmed = notify-Confirms fuel t a len h

    same : dlm_master_lookup fuel t a len outside_recovery ≡ dlm_master_notify fuel t a len
    same = sym (dlm_master_notify-dlm_master_lookup fuel t a len outside_recovery k e)

    Told : Reply → Type 0
    Told r = (dlm_master_lookup fuel' r.after b len' f).r_nodeid ≡ r.r_nodeid

    told : Told (dlm_master_lookup fuel t a len outside_recovery)
    told =
        dlm_master_lookup-agrees fuel fuel' t a b len len' outside_recovery f refl n z
          (subst (λ (r : Reply). is_success r.error ≡ true) (sym same) h)
          (subst (λ (r : Reply). is_success (dlm_master_lookup fuel' r.after b len' f).error ≡ true)
            (sym same) h')
