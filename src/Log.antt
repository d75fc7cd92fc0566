-- ===== src/Log.antt =====
-- util/log.h and util/log.cc: the set-up of the logging. glog is a parameter; the macros and what is
-- logged are left out. A `none` is an abort.
use hlfs.Common.{ℕ, ◌≡◌, refl, Bool, true, false, Option, none, some, ◌>>=◌, ◌∙◌, Returns}

pub record LogCfg : Type 0 where
  pub is_log_to_stderr : Bool
  pub vlog_level : ℕ
  pub min_log_level : ℕ

-- The flags of glog, and `InitGoogleLogging`
pub record Glog : Type 1 where
  pub St : Type 0
  pub set_flags : LogCfg → St → St
  pub init_google_logging : St → Option St

-- `is_init` and the state of glog
unfoldable pub init_log : (glog : Glog) → LogCfg → Bool × glog.St → Option (Bool × glog.St)
init_log glog cfg (true, st) = some (true, st)
init_log glog cfg (false, st) =
    glog.init_google_logging (glog.set_flags cfg st) >>= λ st'. some (false, st')

-- glog aborts exactly where it has been initialised already.
pub record IsGlog (glog : Glog) : Type 0 where
  pub is_initialized : glog.St → Bool
  pub flags_only :
      (cfg : LogCfg) (st : glog.St) → is_initialized (glog.set_flags cfg st) ≡ is_initialized st
  pub first :
      (st : glog.St)
      → is_initialized st ≡ false
      → Returns (λ st'. is_initialized st' ≡ true) (glog.init_google_logging st)
  pub again : (st : glog.St) → is_initialized st ≡ true → glog.init_google_logging st ≡ none

-- InitLog, where glog is not initialised, returns, and a second InitLog then aborts, whatever its
-- configuration, where glog aborts on being initialised again.
pub init_log-init_log :
    (glog : Glog) (is : IsGlog glog) (cfg cfg' : LogCfg) (st : glog.St)
    → is.is_initialized st ≡ false
    → Returns
        (λ r. (is.is_initialized r.1 ≡ true) × (init_log glog cfg' r ≡ none))
        (init_log glog cfg (false, st))
unfolding init_log
init_log-init_log glog is cfg cfg' st fresh =
    let (st', made, up) = is.first (glog.set_flags cfg st) (is.flags_only cfg st ∙ fresh) in
    rw made (
      (false, st'),
      refl,
      (up, rw (is.again (glog.set_flags cfg' st') (is.flags_only cfg' st' ∙ up)) refl),
    )
