-- ===== src/Audit/Log.antt =====
-- `log_activity`, `log_admin_audit`, `_bump_chain_head`, `verify_activity_chain`,
-- `verify_admin_audit_chain`, `_redact_secrets`. The rows of a table are in the order of their ids.
use sysible_controller.Prelude.{
  ℕ, suc, ◌-◌, String, Bool, true, false, ◌&&◌, Option, none, some, List, [], ◌∷◌, ◌++◌, select,
  ltb, leb, ◌==◌, if◌then◌else◌,
}
use sysible_controller.Audit.Chain.{Crypto, Link, Report, algo_of, plain_name, digest, verify_chain}

pub record ActivityRow : Type 0 where
  pub id : ℕ
  pub timestamp : ℕ
  pub username : String
  pub host : String
  pub description : String
  pub command : String
  pub source : String
  pub prev_hash : Option String
  pub entry_hash : Option String
  pub hash_algo : Option String

pub record AdminRow : Type 0 where
  pub id : ℕ
  pub timestamp : ℕ
  pub event : String
  pub username : String
  pub detail : String
  pub prev_hash : Option String
  pub entry_hash : Option String
  pub hash_algo : Option String

-- One log: its rows, what AUTOINCREMENT gives next, and its row of `audit_chain_head`.
pub record Log (Row : Type 0) : Type 0 where
  pub rows : List Row
  pub next : ℕ
  pub head : Option (ℕ × String)

abbrev pub genesis_activity : String
genesis_activity = "sysible-activity-genesis-v1"

abbrev pub genesis_admin : String
genesis_admin = "sysible-admin-audit-genesis-v1"

-- `x or default`
abbrev pub text_or : String → Option String → String
text_or default none = default
text_or default (some s) = if s == "" then default else s

-- the hash of the last row
abbrev pub last_hash : {Row : Type 0} → (Row → Option String) → List Row → Option String
last_hash hash [] = none
last_hash hash (r ∷ []) = hash r
last_hash hash (r ∷ s ∷ rs) = last_hash hash (s ∷ rs)

-- the mark only advances; where it cannot be written it stays
unfoldable pub bump_chain_head : Bool → ℕ → String → Option (ℕ × String) → Option (ℕ × String)
bump_chain_head writes id entry none = if writes then some (id, entry) else none
bump_chain_head writes id entry (some (last, hash)) =
    if writes && leb last id then some (id, entry) else some (last, hash)

-- the loop over the patterns
abbrev pub redact_by :
    {Pattern : Type 0} → (Pattern → String → String) → List Pattern → String → String
redact_by sub [] out = out
redact_by sub (p ∷ ps) out = redact_by sub ps (sub p out)

-- the compiled patterns of `_SECRET_PATTERNS` are a parameter, and so is `Pattern.sub` with `_sub`
unfoldable pub redact_secrets :
    {Pattern : Type 0} → (Pattern → String → String) → List Pattern → String → String
redact_secrets sub patterns command =
    if command == "" then command else redact_by sub patterns command

-- rows at or below the cutoff go, once there is one; `max_rows` is _ACTIVITY_LOG_MAX_ROWS, 0 standing
-- for every value that disables the trim
abbrev pub trim : ℕ → ℕ → List ActivityRow → List ActivityRow
trim max_rows last rows =
    if ltb 0 max_rows && ltb max_rows last
    then select (λ (r : ActivityRow). ltb (last - max_rows) r.id) rows
    else rows

abbrev pub head_id : Option (ℕ × String) → Option ℕ
head_id none = none
head_id (some (id, hash)) = some id

-- a row that has a hash, as the walk reads it
abbrev pub link_of : ℕ → List String → Option String → Option String → Option String → Option Link
link_of id fields prev algo none = none
link_of id fields prev algo (some hash) = some (record {
  id = id;
  fields = fields;
  prev_hash = text_or "" prev;
  entry_hash = hash;
  hash_algo = text_or plain_name algo;
})

abbrev pub keep_link : Option Link → List Link → List Link
keep_link none links = links
keep_link (some l) links = l ∷ links

-- `WHERE entry_hash IS NOT NULL`
unfoldable pub links_of : {Row : Type 0} → (Row → Option Link) → List Row → List Link
links_of view [] = []
links_of view (r ∷ rs) = keep_link (view r) (links_of view rs)

-- `not key`
abbrev pub is_unkeyed : Option String → Bool
is_unkeyed none = true
is_unkeyed (some _) = false

-- the INSERT, the mark and the trim
unfoldable pub write_activity : ℕ → Bool → ActivityRow → Log ActivityRow → Log ActivityRow
unfolding bump_chain_head
write_activity max_rows writes row log = record {
  rows = trim max_rows row.id (log.rows ++ row ∷ []);
  next = suc log.next;
  head = bump_chain_head writes row.id (text_or "" row.entry_hash) log.head;
}

unfoldable pub write_admin : Bool → AdminRow → Log AdminRow → Log AdminRow
unfolding bump_chain_head
write_admin writes row log = record {
  rows = log.rows ++ row ∷ [];
  next = suc log.next;
  head = bump_chain_head writes row.id (text_or "" row.entry_hash) log.head;
}

-- `six` formats a time, `"%.6f" % ...`
module _ (six : ℕ → String) where
  abbrev pub activity_fields : ActivityRow → List String
  activity_fields r = six r.timestamp ∷ r.username ∷ r.host ∷ r.description ∷ r.command ∷ []

  abbrev pub admin_fields : AdminRow → List String
  admin_fields r = six r.timestamp ∷ r.event ∷ r.username ∷ r.detail ∷ []

  abbrev pub activity_link : ActivityRow → Option Link
  activity_link r = link_of r.id (activity_fields r) r.prev_hash r.hash_algo r.entry_hash

  abbrev pub admin_link : AdminRow → Option Link
  admin_link r = link_of r.id (admin_fields r) r.prev_hash r.hash_algo r.entry_hash

module _ (crypto : Crypto) (six : ℕ → String) where
  -- the row that is appended, chained to the last one
  unfoldable pub activity_row :
      Option String
      → ℕ
      → Option String
      → Option String
      → Option String
      → String
      → Option String
      → Log ActivityRow
      → ActivityRow
  unfolding digest
  activity_row key ts username host description command source log =
      let prev =
        text_or genesis_activity (last_hash (λ (r : ActivityRow). r.entry_hash) log.rows) in
      let name = text_or "(unknown)" username in
      let fields = six ts ∷ name ∷ text_or "" host ∷ text_or "" description ∷ command ∷ [] in
      record {
        id = log.next;
        timestamp = ts;
        username = name;
        host = text_or "" host;
        description = text_or "" description;
        command = command;
        source = text_or "api" source;
        prev_hash = some prev;
        entry_hash = some (digest crypto key (algo_of key) prev fields);
        hash_algo = some (algo_of key);
      }

  unfoldable pub admin_row :
      Option String → ℕ → Option String → Option String → Option String → Log AdminRow → AdminRow
  unfolding digest
  admin_row key ts event username detail log =
      let prev = text_or genesis_admin (last_hash (λ (r : AdminRow). r.entry_hash) log.rows) in
      let fields = six ts ∷ text_or "" event ∷ text_or "" username ∷ text_or "" detail ∷ [] in
      record {
        id = log.next;
        timestamp = ts;
        event = text_or "" event;
        username = text_or "" username;
        detail = text_or "" detail;
        prev_hash = some prev;
        entry_hash = some (digest crypto key (algo_of key) prev fields);
        hash_algo = some (algo_of key);
      }

  -- `redact` is `_redact_secrets`, `none` is AuditKeyUnavailable, `writes` is whether the mark can be written
  unfoldable pub log_activity :
      (String → String)
      → ℕ
      → Option String
      → Bool
      → Bool
      → ℕ
      → Option String
      → Option String
      → Option String
      → String
      → Option String
      → Log ActivityRow
      → Option (Log ActivityRow)
  unfolding activity_row write_activity
  log_activity redact max_rows key required writes ts username host description command source log =
      if is_unkeyed key && required
      then none
      else some (
          write_activity max_rows writes
            (activity_row key ts username host description (redact command) source log) log)

  unfoldable pub log_admin_audit :
      Option String
      → Bool
      → Bool
      → ℕ
      → Option String
      → Option String
      → Option String
      → Log AdminRow
      → Option (Log AdminRow)
  unfolding admin_row write_admin
  log_admin_audit key required writes ts event username detail log =
      if is_unkeyed key && required
      then none
      else some (write_admin writes (admin_row key ts event username detail log) log)

  unfoldable pub verify_activity_chain : Option String → Log ActivityRow → Report
  unfolding verify_chain links_of
  verify_activity_chain key log =
      verify_chain crypto key (head_id log.head) (links_of (activity_link six) log.rows)

  unfoldable pub verify_admin_audit_chain : Option String → Log AdminRow → Report
  unfolding verify_chain links_of
  verify_admin_audit_chain key log =
      verify_chain crypto key (head_id log.head) (links_of (admin_link six) log.rows)
