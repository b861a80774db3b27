-- ===== src/State/Flags.antt =====
-- The flag word of a call, `lkb_exflags` and `args->flags`: a field for each bit of
-- include/uapi/linux/dlmconstants.h 130-156.
use lockify.Base.{Bool, false, ◌||◌}

pub record LkFlags : Type 0 where
  pub noqueue : Bool
  pub cancel : Bool
  pub convert : Bool
  pub valblk : Bool
  pub quecvt : Bool
  pub ivvalblk : Bool
  pub convdeadlk : Bool
  pub persistent : Bool
  pub nodlckwt : Bool
  pub nodlckblk : Bool
  pub expedite : Bool
  pub noqueuebast : Bool
  pub headque : Bool
  pub noorder : Bool
  pub orphan : Bool
  pub altpr : Bool
  pub altcw : Bool
  pub forceunlock : Bool
  pub timeout : Bool
  pub notify : Bool
  pub unnamed : Bool  -- some bit above 0x00080000

abbrev pub no_flags : LkFlags
no_flags = record {
  noqueue = false;
  cancel = false;
  convert = false;
  valblk = false;
  quecvt = false;
  ivvalblk = false;
  convdeadlk = false;
  persistent = false;
  nodlckwt = false;
  nodlckblk = false;
  expedite = false;
  noqueuebast = false;
  headque = false;
  noorder = false;
  orphan = false;
  altpr = false;
  altcw = false;
  forceunlock = false;
  timeout = false;
  notify = false;
  unnamed = false;
}

-- `a | b`
abbrev pub flags_or : LkFlags → LkFlags → LkFlags
flags_or a b = record {
  noqueue = a.noqueue || b.noqueue;
  cancel = a.cancel || b.cancel;
  convert = a.convert || b.convert;
  valblk = a.valblk || b.valblk;
  quecvt = a.quecvt || b.quecvt;
  ivvalblk = a.ivvalblk || b.ivvalblk;
  convdeadlk = a.convdeadlk || b.convdeadlk;
  persistent = a.persistent || b.persistent;
  nodlckwt = a.nodlckwt || b.nodlckwt;
  nodlckblk = a.nodlckblk || b.nodlckblk;
  expedite = a.expedite || b.expedite;
  noqueuebast = a.noqueuebast || b.noqueuebast;
  headque = a.headque || b.headque;
  noorder = a.noorder || b.noorder;
  orphan = a.orphan || b.orphan;
  altpr = a.altpr || b.altpr;
  altcw = a.altcw || b.altcw;
  forceunlock = a.forceunlock || b.forceunlock;
  timeout = a.timeout || b.timeout;
  notify = a.notify || b.notify;
  unnamed = a.unnamed || b.unnamed;
}

-- `flags & ~(DLM_LKF_CANCEL | DLM_LKF_VALBLK | DLM_LKF_IVVALBLK | DLM_LKF_FORCEUNLOCK)`
abbrev pub not_for_unlock : LkFlags → Bool
not_for_unlock f =
    f.noqueue || f.convert || f.quecvt || f.convdeadlk || f.persistent || f.nodlckwt || f.nodlckblk
    || f.expedite || f.noqueuebast || f.headque || f.noorder || f.orphan || f.altpr || f.altcw
    || f.timeout || f.notify || f.unnamed
