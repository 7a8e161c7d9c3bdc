-- ===== src/Address/History.antt =====
-- A history of requests and prunings, and what it says of each row of the tally.
use sysible_controller.Prelude.{
  ℕ, ◌+◌, ◌≤◌, ◌≡◌, ◌⊎◌, inl, inr, refl, sym, subst, String, Bool, false, not, ◌&&◌, ◌||◌, Option,
  none, some, List, [], ◌∷◌, ◌++◌, length, member, IsDistinct, All, All-append, select, leb, ltb,
  Dict, lookup, insert, erase, ◌==◌, arith, Bool-cases, eq_iff, eq_refl, if◌then◌else◌,
}
use sysible_controller.Address.Sightings.{
  Entry, make_room, add_peer, sighted, unseen, sight, prune, observe,
}

-- a request from a peer to a host at a time, or a pruning
pub data Event : Type 0 where
  saw : String → String → ℕ → Event
  pruned : ℕ → Event

module _ (normalise : String → String) (routable : String → Bool) where
  -- the tally after the events, the newest first
  unfoldable pub tally : List Event → Dict Entry
  unfolding observe prune
  tally [] = []
  tally (saw host peer now ∷ es) = observe normalise routable host peer now (tally es)
  tally (pruned now ∷ es) = prune now (tally es)

  -- among the events is a request from the peer to the address at the time
  abbrev pub HasSeen : List Event → String → String → ℕ → Type 0
  HasSeen [] addr peer time = ⊥
  HasSeen (saw host p t ∷ es) addr peer time =
      ((normalise host ≡ addr) × (p ≡ peer) × (t ≡ time)) ⊎ HasSeen es addr peer time
  HasSeen (pruned t ∷ es) addr peer time = HasSeen es addr peer time

  -- how many requests went to the address
  abbrev pub requests : List Event → String → ℕ
  requests [] addr = 0
  requests (saw host p t ∷ es) addr = (if normalise host == addr then 1 else 0) + requests es addr
  requests (pruned t ∷ es) addr = requests es addr

  abbrev pub HasPeer : List Event → String → String → Type 0
  HasPeer es addr peer = (time : ℕ) × HasSeen es addr peer time

  pub record IsBacked (es : List Event) (addr : String) (e : Entry) : Type 0 where
    pub counted : e.count ≤ requests es addr
    pub by_peers : All (HasPeer es addr) e.peers
    pub distinct : IsDistinct e.peers
    pub began : (peer : String) × HasSeen es addr peer e.first
    pub ended : (peer : String) × HasSeen es addr peer e.last

  abbrev pub IsBackedRow : List Event → String × Entry → Type 0
  IsBackedRow es row = IsBacked es row.0 row.1

  seen_later :
      (x : Event) (es : List Event) (addr peer : String) (t : ℕ)
      → HasSeen es addr peer t
      → HasSeen (x ∷ es) addr peer t
  seen_later (saw host p t') es addr peer t h = inr h
  seen_later (pruned t') es addr peer t h = h

  requests_later :
      (x : Event) (es : List Event) (addr : String) → requests es addr ≤ requests (x ∷ es) addr
  requests_later (saw host p t) es addr = ground arith
  requests_later (pruned t) es addr = omega arith

  peers_later :
      (x : Event) (es : List Event) (addr : String) (ps : List String)
      → All (HasPeer es addr) ps
      → All (HasPeer (x ∷ es) addr) ps
  peers_later x es addr [] h = tt
  peers_later x es addr (p ∷ ps) h =
      ((h.0.0, seen_later x es addr p h.0.0 h.0.1), peers_later x es addr ps h.1)

  IsBacked-later :
      (x : Event) (es : List Event) (addr : String) (e : Entry)
      → IsBacked es addr e
      → IsBacked (x ∷ es) addr e
  IsBacked-later x es addr e b = record {
    counted = omega (arith, b.counted, requests_later x es addr);
    by_peers = peers_later x es addr e.peers b.by_peers;
    distinct = b.distinct;
    began = (b.began.0, seen_later x es addr b.began.0 e.first b.began.1);
    ended = (b.ended.0, seen_later x es addr b.ended.0 e.last b.ended.1);
  }

  rows_later :
      (x : Event) (es : List Event) (rows : Dict Entry)
      → All (IsBackedRow es) rows
      → All (IsBackedRow (x ∷ es)) rows
  rows_later x es [] h = tt
  rows_later x es ((k, e) ∷ rows) h = (IsBacked-later x es k e h.0, rows_later x es rows h.1)

  insert_backed :
      (es : List Event) (k : String) (e : Entry) (rows : Dict Entry)
      → IsBacked es k e
      → All (IsBackedRow es) rows
      → All (IsBackedRow es) (insert k e rows)
  unfolding insert
  insert_backed es k e [] b h = (b, tt)
  insert_backed es k e ((j, v) ∷ rows) b h =
      let ih = insert_backed es k e rows b h.1 in
      elim (Bool-cases (k == j)) [ inl here ↦ rw here (b, h.1) | inr there ↦ rw there (h.0, ih) ]

  erase_backed :
      (es : List Event) (k : String) (rows : Dict Entry)
      → All (IsBackedRow es) rows
      → All (IsBackedRow es) (erase k rows)
  unfolding erase
  erase_backed es k [] h = tt
  erase_backed es k ((j, v) ∷ rows) h =
      let ih = erase_backed es k rows h.1 in
      elim (Bool-cases (k == j)) [ inl here ↦ rw here ih | inr there ↦ rw there (h.0, ih) ]

  select_backed :
      (es : List Event) (test : String × Entry → Bool) (rows : Dict Entry)
      → All (IsBackedRow es) rows
      → All (IsBackedRow es) (select test rows)
  select_backed es test [] h = tt
  select_backed es test (row ∷ rows) h =
      let ih = select_backed es test rows h.1 in
      elim (Bool-cases (test row)) [ inl here ↦ rw here (h.0, ih) | inr there ↦ rw there ih ]

  room_backed :
      (es : List Event) (rows : Dict Entry)
      → All (IsBackedRow es) rows
      → All (IsBackedRow es) (make_room rows)
  room_backed es [] h = tt
  room_backed es ((k, e) ∷ rows) h = elim (Bool-cases (leb 64 (length ((k, e) ∷ rows)))) [
    | inl full ↦ rw full (erase_backed es _ ((k, e) ∷ rows) h)
    | inr free ↦ rw free h
  ]

  lookup-IsBacked :
      (es : List Event) (k : String) (e : Entry) (rows : Dict Entry)
      → All (IsBackedRow es) rows
      → lookup k rows ≡ some e
      → IsBacked es k e
  unfolding lookup
  lookup-IsBacked es k e [] h = λ at. absurd (cc at)
  lookup-IsBacked es k e ((j, v) ∷ rows) h = elim (Bool-cases (k == j)) [
    | inl here ↦ rw here λ at.
        let same : v ≡ e = cc at in
        subst (λ (w : Entry). IsBacked es k w) same
          (subst (λ i. IsBacked es i v) (sym ((eq_iff k j).0 here)) h.0)
    | inr there ↦ rw there (lookup-IsBacked es k e rows h.1)
  ]

  member-append :
      (x p : String) (ps : List String)
      → member x ps ≡ false
      → (x == p) ≡ false
      → member x (ps ++ p ∷ []) ≡ false
  member-append x p [] h other = rw other refl
  member-append x p (q ∷ ps) h other = ground (arith, member-append x p ps, h, other)

  IsDistinct-append :
      (p : String) (ps : List String)
      → member p ps ≡ false
      → IsDistinct ps
      → IsDistinct (ps ++ p ∷ [])
  IsDistinct-append p [] new d = (refl, tt)
  IsDistinct-append p (q ∷ ps) new d =
      let other : (p == q) ≡ false = ground (arith, new) in
      let later : member p ps ≡ false = ground (arith, new) in
      let ih = IsDistinct-append p ps later d.1 in
      (member-append q p ps d.0 (ground (arith, other, eq_iff p q, eq_iff q p)), ih)

  -- a peer that is new is put at the end
  added_peers :
      (es : List Event) (addr peer : String) (ps : List String)
      → All (HasPeer es addr) ps
      → HasPeer es addr peer
      → All (HasPeer es addr) (add_peer peer ps)
  added_peers es addr peer ps by this =
      elim (Bool-cases (not (peer == "") && not (member peer ps) && ltb (length ps) 16)) [
        | inl new ↦ rw new (All-append (HasPeer es addr) ps (peer ∷ []) by (this, tt))
        | inr old ↦ rw old by
      ]

  added_once : (peer : String) (ps : List String) → IsDistinct ps → IsDistinct (add_peer peer ps)
  added_once peer ps d =
      elim (Bool-cases (not (peer == "") && not (member peer ps) && ltb (length ps) 16)) [
        | inl new ↦ rw new (IsDistinct-append peer ps (ground (arith, new)) d)
        | inr old ↦ rw old d
      ]

  -- one more request to the address
  sighted-IsBacked :
      (host peer : String) (now : ℕ) (es : List Event) (e : Entry)
      → e.count ≤ requests es (normalise host)
      → All (HasPeer es (normalise host)) e.peers
      → IsDistinct e.peers
      → ((p : String) × HasSeen (saw host peer now ∷ es) (normalise host) p e.first)
      → IsBacked (saw host peer now ∷ es) (normalise host) (sighted peer now e)
  sighted-IsBacked host peer now es e few by once began = record {
    counted = rw (eq_refl (normalise host)) (omega (arith, few));
    by_peers =
        added_peers (saw host peer now ∷ es) (normalise host) peer e.peers
          (peers_later (saw host peer now) es (normalise host) e.peers by)
          (now, inl (refl, refl, refl));
    distinct = added_once peer e.peers once;
    began = began;
    ended = (peer, inl (refl, refl, refl));
  }

  observe_backed :
      (host peer : String) (now : ℕ) (es : List Event) (o : Option Entry) (rows : Dict Entry)
      → lookup (normalise host) rows ≡ o
      → All (IsBackedRow es) rows
      → All (IsBackedRow (saw host peer now ∷ es)) (sight (normalise host) peer now o rows)
  unfolding sight
  observe_backed host peer now es none rows at h =
      insert_backed (saw host peer now ∷ es) (normalise host) _ (make_room rows)
        (sighted-IsBacked host peer now es (unseen now) (omega arith) tt tt
          (peer, inl (refl, refl, refl)))
        (room_backed (saw host peer now ∷ es) rows (rows_later (saw host peer now) es rows h))
  observe_backed host peer now es (some e) rows at h =
      let b = lookup-IsBacked es (normalise host) e rows h at in
      insert_backed (saw host peer now ∷ es) (normalise host) _ rows
        (sighted-IsBacked host peer now es e b.counted b.by_peers b.distinct (
          b.began.0,
          seen_later (saw host peer now) es (normalise host) b.began.0 e.first b.began.1,
        ))
        (rows_later (saw host peer now) es rows h)

  pub tally_backed : (es : List Event) → All (IsBackedRow es) (tally es)
  unfolding tally observe prune
  tally_backed [] = tt
  tally_backed (pruned now ∷ es) =
      select_backed (pruned now ∷ es) _ (tally es)
        (rows_later (pruned now) es (tally es) (tally_backed es))
  tally_backed (saw host peer now ∷ es) =
      let ih = tally_backed es in
      elim (Bool-cases (normalise host == "" || not (routable (normalise host)))) [
        | inl skip ↦ rw skip (rows_later (saw host peer now) es (tally es) ih)
        | inr take ↦ rw take (
            observe_backed host peer now es (lookup (normalise host) (tally es)) (tally es) refl ih)
      ]
