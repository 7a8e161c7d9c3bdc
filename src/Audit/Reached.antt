-- ===== src/Audit/Reached.antt =====
-- The logs that a run reaches, and that they verify: `log_activity` and `log_admin_audit` under the keys
-- that the process has had.
use sysible_controller.Prelude.{
  ℕ, ◌≡◌, refl, ◌∙◌, subst, String, Bool, true, false, ◌&&◌, Option, none, some, [], length, all,
  ltb, if◌then◌else◌, arith,
}
use sysible_controller.Audit.Chain.{Crypto, intact, is_keyed}
use sysible_controller.Audit.Log.{
  Log, ActivityRow, AdminRow, text_or, links_of, head_id, genesis_activity, genesis_admin,
  activity_link, admin_link, activity_row, admin_row, write_activity, write_admin, log_activity,
  log_admin_audit, verify_activity_chain, verify_admin_audit_chain,
}
use sysible_controller.Audit.Links.{passes}
use sysible_controller.Audit.Intact.{IsSound-provisioned, verify_chain_sound}
use sysible_controller.Audit.History.{length-links_of}
use sysible_controller.Audit.Sound.{
  IsHexadecimal, IsSoundLog, activity_hash, admin_hash, activity_next, admin_next, write_kept,
  trim_kept, activity_seen, admin_seen,
}

abbrev pub new_log : {Row : Type 0} → Log Row
new_log = record { rows = []; next = 1; head = none }

-- The activity logs that a run reaches, by the key that it has: it may get one later, and
-- then keeps it. A run that loses or changes its key is not among them; where SYSIBLE_AUDIT_REQUIRED is off, it goes on
-- to write rows that the verification calls broken. A call that raises leaves the log.
pub data HasActivity (crypto : Crypto) (six : ℕ → String)
    : Option String → Log ActivityRow → Type 0 where
  start : (key : Option String) → HasActivity crypto six key new_log
  provisioned :
      (k : String) (log : Log ActivityRow)
      → HasActivity crypto six none log
      → HasActivity crypto six (some k) log
  written :
      (redact : String → String) (max_rows : ℕ) (key : Option String) (required writes : Bool)
      (ts : ℕ) (username host description : Option String) (command : String)
      (source : Option String) (log log' : Log ActivityRow)
      → HasActivity crypto six key log
      → log_activity crypto six redact max_rows key required writes ts username host description
          command source log
        ≡ some log'
      → HasActivity crypto six key log'

pub data HasAdmin (crypto : Crypto) (six : ℕ → String) : Option String → Log AdminRow → Type 0 where
  start : (key : Option String) → HasAdmin crypto six key new_log
  provisioned :
      (k : String) (log : Log AdminRow)
      → HasAdmin crypto six none log
      → HasAdmin crypto six (some k) log
  written :
      (key : Option String) (required writes : Bool) (ts : ℕ)
      (event username detail : Option String) (log log' : Log AdminRow)
      → HasAdmin crypto six key log
      → log_admin_audit crypto six key required writes ts event username detail log ≡ some log'
      → HasAdmin crypto six key log'

guarded : {A : Type 0} (b : Bool) (x y : A) → (if b then none else some x) ≡ some y → x ≡ y
guarded true x y e = absurd (cc e)
guarded false x y e = cc e

module _ (crypto : Crypto) (hex : IsHexadecimal crypto) (six : ℕ → String) where
  activity_sound :
      (key : Option String) (log : Log ActivityRow)
      → HasActivity crypto six key log
      → IsSoundLog crypto (activity_link six) activity_hash key log
  unfolding passes links_of log_activity write_activity activity_row
  activity_sound key _ (HasActivity.start _) = record {
    hashed = refl;
    sound = record { passing = refl; own = refl; rising = ground arith; marked = refl };
  }
  activity_sound _ log (HasActivity.provisioned k _ h) =
      let ih = activity_sound none log h in
      record { hashed = ih.hashed; sound = IsSound-provisioned crypto k _ _ _ ih.sound }
  activity_sound key _
        (HasActivity.written redact max_rows _ required writes ts username host description command
          source log log' h e) =
      let s = activity_sound key log h in
      let row =
        activity_row crypto six key ts username host description (redact command) source log in
      let (l, seen, at, n) =
        activity_next crypto hex six key ts username host description (redact command) source log
          s in
      let kept =
        write_kept crypto hex six (activity_link six) activity_hash genesis_activity key writes
          (text_or "" row.entry_hash) row l log refl seen at n s in
      subst (λ log''. IsSoundLog crypto (activity_link six) activity_hash key log'')
        (guarded _ _ log' e) (trim_kept crypto hex six key max_rows log.rows row l _ _ seen at kept)

  admin_sound :
      (key : Option String) (log : Log AdminRow)
      → HasAdmin crypto six key log
      → IsSoundLog crypto (admin_link six) admin_hash key log
  unfolding passes links_of log_admin_audit write_admin admin_row
  admin_sound key _ (HasAdmin.start _) = record {
    hashed = refl;
    sound = record { passing = refl; own = refl; rising = ground arith; marked = refl };
  }
  admin_sound _ log (HasAdmin.provisioned k _ h) =
      let ih = admin_sound none log h in
      record { hashed = ih.hashed; sound = IsSound-provisioned crypto k _ _ _ ih.sound }
  admin_sound key _ (HasAdmin.written _ required writes ts event username detail log log' h e) =
      let s = admin_sound key log h in
      let row = admin_row crypto six key ts event username detail log in
      let (l, seen, at, n) = admin_next crypto hex six key ts event username detail log s in
      subst (λ log''. IsSoundLog crypto (admin_link six) admin_hash key log'') (guarded _ _ log' e)
        (write_kept crypto hex six (admin_link six) admin_hash genesis_admin key writes
          (text_or "" row.entry_hash) row l log refl seen at n s)

  -- Every activity log that a run reaches verifies, where the run has one key throughout, or none at first and then
  -- one that it keeps: all its rows are checked, none is broken and none is missing, whatever was written,
  -- whatever the trims dropped, and whichever marks could not be written. The report calls the log keyed
  -- exactly when it has rows and all of them are. No digest is the empty text.
  pub verify_activity_chain-written :
      (key : Option String) (log : Log ActivityRow)
      → HasActivity crypto six key log
      → verify_activity_chain crypto six key log
        ≡ intact
            (length log.rows)
            (ltb 0 (length log.rows) && all is_keyed (links_of (activity_link six) log.rows))
  unfolding verify_activity_chain
  verify_activity_chain-written key log h =
      let s = activity_sound key log h in
      let n =
        length-links_of (activity_link six) activity_hash (λ (r : ActivityRow). r.id)
          (activity_seen six) log.rows s.hashed in
      verify_chain_sound crypto key _ log.next (head_id log.head) s.sound ∙ rw n refl

  -- Every audit log of the administrators that a run reaches verifies, where the run has one key throughout, or none at
  -- first and then one that it keeps: all its rows are checked, none is broken and none is missing, whatever was
  -- written, and whichever marks could not be written. The report calls the log keyed exactly when it has rows and
  -- all of them are. No digest is the empty text.
  pub verify_admin_audit_chain-written :
      (key : Option String) (log : Log AdminRow)
      → HasAdmin crypto six key log
      → verify_admin_audit_chain crypto six key log
        ≡ intact
            (length log.rows)
            (ltb 0 (length log.rows) && all is_keyed (links_of (admin_link six) log.rows))
  unfolding verify_admin_audit_chain
  verify_admin_audit_chain-written key log h =
      let s = admin_sound key log h in
      let n =
        length-links_of (admin_link six) admin_hash (λ (r : AdminRow). r.id) (admin_seen six)
          log.rows s.hashed in
      verify_chain_sound crypto key _ log.next (head_id log.head) s.sound ∙ rw n refl
