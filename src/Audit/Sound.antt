-- ===== src/Audit/Sound.antt =====
-- What a row that is written, and the trim, keep of a log.
use sysible_controller.Prelude.{
  ℕ, suc, ◌-◌, ◌≡◌, refl, String, Bool, true, false, ◌&&◌, Option, none, some, List, [], ◌∷◌, ◌++◌,
  select, all, ltb, ◌==◌, is_some, arith, Bool-cases, inl, inr,
}
use sysible_controller.Audit.Chain.{Crypto, Link, keyed_name, algo_of, plain_name, digest}
use sysible_controller.Audit.Log.{
  Log, ActivityRow, AdminRow, text_or, bump_chain_head, links_of, head_id, genesis_activity,
  genesis_admin, trim, activity_fields, admin_fields, activity_link, admin_link, activity_row,
  admin_row,
}
use sysible_controller.Audit.Intact.{IsSound, IsNext, IsSound-append, IsSound-select}
use sysible_controller.Audit.History.{
  text_or_empty, link_of-some, links_of-append, last_hash-links_of, links_of-select,
  bump_chain_head-within,
}

-- Neither digest is ever the empty text.
abbrev pub IsHexadecimal : Crypto → Type 0
IsHexadecimal crypto =
    ((p : List ℕ) → (crypto.sha256 p == "") ≡ false)
    × ((k : String) (p : List ℕ) → (crypto.hmac k p == "") ≡ false)

digest_nonempty :
    (crypto : Crypto)
    → IsHexadecimal crypto
    → (key : Option String) (algo prev : String) (fields : List String)
    → (digest crypto key algo prev fields == "") ≡ false
unfolding digest
digest_nonempty crypto hex none algo prev fields = hex.0 _
digest_nonempty crypto hex (some k) algo prev fields = elim (Bool-cases (algo == keyed_name)) [
  | inl e ↦ rw e (hex.1 k _)
  | inr e ↦ rw e (hex.0 _)
]

algo_written : (key : Option String) → text_or plain_name (some (algo_of key)) ≡ algo_of key
algo_written none = refl
algo_written (some k) = refl

all_after :
    {Row : Type 0} (test : Row → Bool) (rows : List Row) (r : Row)
    → all test rows ≡ true
    → test r ≡ true
    → all test (rows ++ r ∷ []) ≡ true
all_after test [] r h t = rw t refl
all_after test (x ∷ rows) r h t = ground (arith, all_after test rows r, h, t)

all_kept :
    {Row : Type 0} (test keep : Row → Bool) (rows : List Row)
    → all test rows ≡ true
    → all test (select keep rows) ≡ true
all_kept test keep [] h = refl
all_kept test keep (x ∷ rows) h = ground (arith, all_kept test keep rows, h)

-- Logs that the walk finds sound.
pub record IsSoundLog {Row : Type 0} (crypto : Crypto) (view : Row → Option Link)
    (hash : Row → Option String) (key : Option String) (log : Log Row) : Type 0 where
  pub hashed : all (λ (r : Row). is_some (hash r)) log.rows ≡ true
  pub sound : IsSound crypto key (links_of view log.rows) log.next (head_id log.head)

abbrev pub activity_hash : ActivityRow → Option String
activity_hash r = r.entry_hash

abbrev pub admin_hash : AdminRow → Option String
admin_hash r = r.entry_hash

module _ (six : ℕ → String) where
  pub activity_seen :
      (r : ActivityRow)
      → is_some r.entry_hash ≡ true
      → (l : Link) × (activity_link six r ≡ some l)
        × (r.entry_hash ≡ some l.entry_hash)
        × (l.id ≡ r.id)
  activity_seen r h =
      link_of-some r.id (activity_fields six r) r.prev_hash r.hash_algo r.entry_hash h

  pub admin_seen :
      (r : AdminRow)
      → is_some r.entry_hash ≡ true
      → (l : Link) × (admin_link six r ≡ some l)
        × (r.entry_hash ≡ some l.entry_hash)
        × (l.id ≡ r.id)
  admin_seen r h = link_of-some r.id (admin_fields six r) r.prev_hash r.hash_algo r.entry_hash h

module _ (crypto : Crypto) (hex : IsHexadecimal crypto) (six : ℕ → String) where
  pub activity_next :
      (key : Option String) (ts : ℕ) (username host description : Option String) (command : String)
      (source : Option String) (log : Log ActivityRow)
      → IsSoundLog crypto (activity_link six) activity_hash key log
      → (l : Link) × (activity_link six
            (activity_row crypto six key ts username host description command source log)
          ≡ some l)
        × (l.id ≡ log.next)
        × IsNext crypto key genesis_activity (links_of (activity_link six) log.rows) l
  unfolding activity_row
  activity_next key ts username host description command source log s =
      let named =
        last_hash-links_of (activity_link six) activity_hash (λ (r : ActivityRow). r.id)
          (activity_seen six) log.rows s.hashed in
      (
        _,
        refl,
        refl,
        record {
          algo = algo_written key;
          prev = rw (text_or_empty _, named) refl;
          entry = rw (algo_written key, text_or_empty _) refl;
          hexadecimal = digest_nonempty crypto hex key _ _ (
              six ts
              ∷ text_or "(unknown)" username
              ∷ text_or "" host
              ∷ text_or "" description
              ∷ command
              ∷ []);
        },
      )

  pub admin_next :
      (key : Option String) (ts : ℕ) (event username detail : Option String) (log : Log AdminRow)
      → IsSoundLog crypto (admin_link six) admin_hash key log
      → (l : Link) × (admin_link six (admin_row crypto six key ts event username detail log)
          ≡ some l)
        × (l.id ≡ log.next)
        × IsNext crypto key genesis_admin (links_of (admin_link six) log.rows) l
  unfolding admin_row
  admin_next key ts event username detail log s =
      let named =
        last_hash-links_of (admin_link six) admin_hash (λ (r : AdminRow). r.id) (admin_seen six)
          log.rows s.hashed in
      (
        _,
        refl,
        refl,
        record {
          algo = algo_written key;
          prev = rw (text_or_empty _, named) refl;
          entry = rw (algo_written key, text_or_empty _) refl;
          hexadecimal =
              digest_nonempty crypto hex key _ _
                (six ts ∷ text_or "" event ∷ text_or "" username ∷ text_or "" detail ∷ []);
        },
      )

  -- an INSERT and the mark, without the trim
  pub write_kept :
      {Row : Type 0} (view : Row → Option Link) (hash : Row → Option String) (genesis : String)
      (key : Option String) (writes : Bool) (entry : String) (row : Row) (l : Link) (log : Log Row)
      → is_some (hash row) ≡ true
      → view row ≡ some l
      → l.id ≡ log.next
      → IsNext crypto key genesis (links_of view log.rows) l
      → IsSoundLog crypto view hash key log
      → IsSoundLog crypto view hash key (record {
        rows = log.rows ++ row ∷ [];
        next = suc log.next;
        head = bump_chain_head writes log.next entry log.head;
      })
  write_kept view hash genesis key writes entry row l log has seen at n s = record {
    hashed = all_after _ log.rows row s.hashed has;
    sound = rw (links_of-append view log.rows row l seen) (
        IsSound-append crypto key genesis _ l log.next (head_id log.head) _ at n s.sound
          (bump_chain_head-within writes log.next entry log.head _ s.sound.rising s.sound.marked));
  }

  pub trim_kept :
      (key : Option String) (max_rows : ℕ) (rows : List ActivityRow) (row : ActivityRow) (l : Link)
      (next : ℕ) (head : Option (ℕ × String))
      → activity_link six row ≡ some l
      → l.id ≡ row.id
      → IsSoundLog crypto
          (activity_link six)
          activity_hash
          key
          (record { rows = rows ++ row ∷ []; next = next; head = head })
      → IsSoundLog crypto
          (activity_link six)
          activity_hash
          key
          (record { rows = trim max_rows row.id (rows ++ row ∷ []); next = next; head = head })
  trim_kept key max_rows rows row l next head seen at s =
      elim (Bool-cases (ltb 0 max_rows && ltb max_rows row.id)) [
        | inl cut ↦ rw cut (record {
          hashed =
              all_kept (λ (r : ActivityRow). is_some (activity_hash r))
                (λ (r : ActivityRow). ltb (row.id - max_rows) r.id) (rows ++ row ∷ []) s.hashed;
          sound =
              rw
                (
                  links_of-select (activity_link six) activity_hash (λ (r : ActivityRow). r.id)
                      (activity_seen six) (row.id - max_rows) _ s.hashed,
                  links_of-append (activity_link six) rows row l seen,
                )
                (IsSound-select crypto key (links_of (activity_link six) rows) l next (head_id head)
                  (row.id - max_rows) (rw at (ground (arith, cut)))
                  (rw (← links_of-append (activity_link six) rows row l seen) s.sound));
        })
        | inr whole ↦ rw whole s
      ]
