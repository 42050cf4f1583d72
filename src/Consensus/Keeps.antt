-- ===== src/Consensus/Keeps.antt =====
-- What every round of the iMesh and every stored ledger keep, following the consensus keeps.
use aknode.Base.{
  ℕ, zero, suc, ◌-◌, ◌≢◌, ◌==◌, if◌then◌else◌, Bool, true, false, Option, none, some, List, [], ◌∷◌,
  ◌++◌, Result, ok, err, Error, key_not_found, panic, no_fuel, refused,
}
use aknode.Imesh.Types.{Hash, Txs, Spend}
use aknode.Imesh.Tables.{has}
use aknode.Imesh.Rounds.Safety.{Round, confirms, reverts, round_of, play_round}
use aknode.Imesh.Rounds.{revert_from}
use aknode.Consensus.{
  LedgerId, StoredLedger, Library, Ledger, State, new_ledger, txs_of, with_txs, last_key, ask,
  notify_if, confirm_if, accepted_of, set_leaf, get_ledger, put_ledger, get_all, revert_ledger,
  go_backward, confirm_tx, go_forward, confirm_end, confirm_forward, confirm_backward,
  confirm_ledger,
}

module _ (P : (LedgerId → Option StoredLedger) → Txs → Type 0) where
  abbrev pub HoldsIn : State → Type 0
  HoldsIn s = P s.ledgers (txs_of s)

  pub branch_keep :
      {A B : Type 0} (r : Result A) (bad : Error → Result B × State) (good : A → Result B × State)
      → ((e : Error) → HoldsIn (bad e).1)
      → ((a : A) → HoldsIn (good a).1)
      → HoldsIn (elim r as (λ x. Result B × State) [ err e ↦ bad e | ok a ↦ good a ]).1
  branch_keep (err e) bad good p q = p e
  branch_keep (ok a) bad good p q = q a

  pub notify_if_keep :
      (b : Bool) (hs : List Hash) (s : State) → HoldsIn s → HoldsIn (notify_if b hs s).1
  unfolding notify_if
  notify_if_keep false hs s p = p
  notify_if_keep true hs s p =
      branch_keep (accepted_of (txs_of s) hs) (λ e. (err e, s))
        (λ sent. (ok tt, record s { notified = s.notified ++ sent ∷ [] })) (λ e. p) (λ sent. p)

  pub set_leaf_keep :
      (writes : Bool) (o : Option Hash) (s : State) → HoldsIn s → HoldsIn (set_leaf writes o s).1
  unfolding set_leaf
  set_leaf_keep writes none s p = p
  set_leaf_keep writes (some h) s p = p

  pub confirm_end_keep :
      (lib : Library) (serialize : Spend → ℕ) (fuel : ℕ) (writes : Bool) (l : Ledger)
      (tr : List Hash) (s : State)
      → HoldsIn s
      → HoldsIn (confirm_end lib serialize fuel writes l tr s).1
  unfolding confirm_end
  confirm_end_keep lib serialize fuel writes l tr s p =
      let r = notify_if s.notifies tr s in
      let q = notify_if_keep s.notifies tr s p in
      branch_keep r.0 (λ e. (err e, r.1)) (λ x. set_leaf writes (last_key l.txs) r.1) (λ e. q)
        (λ x. set_leaf_keep writes (last_key l.txs) r.1 q)

module _ (lib : Library) (serialize : Spend → ℕ) (fuel : ℕ)
    (P : (LedgerId → Option StoredLedger) → Txs → Type 0)
    (numbered : (l : Ledger) → lib.id_of l ≢ 0)
    (round : (r : Round) (ls : LedgerId → Option StoredLedger) (db : Txs)
      → round_of r ≢ 0
      → P ls db
      → P ls (play_round serialize fuel db r)) where
  abbrev K : State → Type 0
  K s = HoldsIn P s

  ask_keep : (e : Error) (id : ℕ) (s : State) → K s → K (ask e id s)
  unfolding ask
  ask_keep key_not_found id s p = p
  ask_keep panic id s p = p
  ask_keep no_fuel id s p = p
  ask_keep refused id s p = p

  -- A branch on a result keeps what both of its sides keep.
  pub get_all_keep : (n : ℕ) (last : Ledger) (s : State) → K s → K (get_all lib n last s).1
  unfolding get_all
  get_all_keep zero last s p = p
  get_all_keep (suc n) last s p =
      branch_keep P (get_ledger lib s last.parent_id) (λ e. (err e, ask e last.parent_id s))
        (λ l. get_all lib n l s) (λ e. ask_keep e last.parent_id s p) (λ l. get_all_keep n l s p)

  revert_ledger_keep :
      (last : Ledger) (s : State) → K s → K (revert_ledger lib serialize fuel last s).1
  unfolding revert_ledger play_round
  revert_ledger_keep last s p = of_key (last_key last.txs)
    where
      of_key :
          (o : Option Hash)
          → K
              (elim o as (λ x. Result (List Hash) × State) [
                | none ↦ (ok [], s)
                | some t ↦
                    let r = revert_from fuel t (lib.id_of last) (txs_of s) in (r.0, with_txs s r.1)
              ]).1
      of_key none = p
      of_key (some t) = round (reverts t (lib.id_of last)) s.ledgers (txs_of s) (numbered last) p

  pub go_backward_keep :
      (n : ℕ) (last : Ledger) (s : State) → K s → K (go_backward lib serialize fuel n last s).1
  unfolding go_backward
  go_backward_keep zero last s p = p
  go_backward_keep (suc n) last s p =
      let r = revert_ledger lib serialize fuel last s in
      let s1 = record r.1 { latest_solid_ledger = last } in
      let q = revert_ledger_keep last s p in
      branch_keep P r.0 (λ e. (err e, r.1))
        (λ x. elim (get_ledger lib s1 last.parent_id) as (λ x. Result (Unit {0}) × State) [
          | err e ↦ (err e, s1)
          | ok parent ↦ go_backward lib serialize fuel n parent s1
        ])
        (λ e. q)
        (λ x.
          branch_keep P (get_ledger lib s1 last.parent_id) (λ e. (err e, s1))
            (λ parent. go_backward lib serialize fuel n parent s1) (λ e. q)
            (λ parent. go_backward_keep n parent s1 q))

  confirm_if_keep :
      (b : Bool) (l : Ledger) (t : Hash) (s : State)
      → K s
      → K (confirm_if lib serialize fuel b l t s).1
  unfolding confirm_if play_round
  confirm_if_keep true l t s p =
      round (confirms t (lib.id_of l)) s.ledgers (txs_of s) (numbered l) p
  confirm_if_keep false l t s p = p

  pub confirm_tx_keep :
      (l : Ledger) (o : Option Hash) (s : State) → K s → K (confirm_tx lib serialize fuel l o s).1
  unfolding confirm_tx
  confirm_tx_keep l none s p = p
  confirm_tx_keep l (some t) s p = confirm_if_keep (has (txs_of s) t) l t s p

  pub go_forward_keep :
      (n i : ℕ) (l : Ledger) (tr : List Hash) (s : State)
      → K s
      → K (go_forward lib serialize fuel n i l tr s).1
  unfolding go_forward
  go_forward_keep zero i l tr s p = p
  go_forward_keep (suc n) i l tr s p =
      branch_keep P (get_ledger lib s (lib.index_of (get_ledger lib s) l i)) (λ e. (err e, s))
        (λ ll.
          let r = confirm_tx lib serialize fuel l (last_key ll.txs) s in
          elim r.0 as (λ x. Result (List Hash) × State) [
            | err e ↦ (err e, r.1)
            | ok hs ↦
                go_forward lib serialize fuel n (suc i) l (tr ++ hs)
                  (record r.1 { latest_solid_ledger = ll })
          ])
        (λ e. p)
        (λ ll.
          let r = confirm_tx lib serialize fuel l (last_key ll.txs) s in
          let q = confirm_tx_keep l (last_key ll.txs) s p in
          branch_keep P r.0 (λ e. (err e, r.1))
            (λ hs.
              go_forward lib serialize fuel n (suc i) l (tr ++ hs)
                (record r.1 { latest_solid_ledger = ll }))
            (λ e. q)
            (λ hs.
              go_forward_keep n (suc i) l (tr ++ hs) (record r.1 { latest_solid_ledger = ll }) q))

  confirm_forward_keep :
      (writes : Bool) (l : Ledger) (seq : ℕ) (s : State)
      → K s
      → K (confirm_forward lib serialize fuel writes l seq s).1
  unfolding confirm_forward
  confirm_forward_keep writes l seq s p =
      let r = go_forward lib serialize fuel (suc l.seq - seq) seq l [] s in
      let q = go_forward_keep (suc l.seq - seq) seq l [] s p in
      branch_keep P r.0 (λ e. (err e, r.1)) (λ tr. confirm_end lib serialize fuel writes l tr r.1)
        (λ e. q) (λ tr. confirm_end_keep P lib serialize fuel writes l tr r.1 q)

  confirm_backward_keep :
      (writes : Bool) (l : Ledger) (seq : ℕ) (s : State)
      → K s
      → K (confirm_backward lib serialize fuel writes l seq s).1
  unfolding confirm_backward
  confirm_backward_keep writes l seq s p =
      let last = s.latest_solid_ledger in
      let r = go_backward lib serialize fuel (suc last.seq - seq) last s in
      let q = go_backward_keep (suc last.seq - seq) last s p in
      branch_keep P r.0 (λ e. (err e, r.1))
        (λ x. confirm_forward lib serialize fuel writes l seq r.1) (λ e. q)
        (λ x. confirm_forward_keep writes l seq r.1 q)

  module _
      (store : (id : LedgerId) (x : StoredLedger) (ls : LedgerId → Option StoredLedger) (db : Txs)
        → P ls db
        → P (λ k. if id == k then some x else ls k) db) where
    put_ledger_keep :
        (writes : Bool) (l : Ledger) (s : State) → K s → K (put_ledger lib writes l s).1
    unfolding put_ledger
    put_ledger_keep false l s p = p
    put_ledger_keep true l s p = store (lib.id_of l) (new_ledger l) s.ledgers (txs_of s) p

    pub confirm_ledger_keep :
        (writes : Bool) (l : Ledger) (s : State)
        → K s
        → K (confirm_ledger lib serialize fuel writes l s).1
    unfolding confirm_ledger
    confirm_ledger_keep writes l s p0 =
        let p = put_ledger lib writes l (record s { latest_ledger = l }) in
        let seq = lib.diff (get_ledger lib p.1) l p.1.latest_solid_ledger in
        let g = get_all lib (l.seq - seq) p.1.latest_solid_ledger p.1 in
        let p1 = put_ledger_keep writes l (record s { latest_ledger = l }) p0 in
        let p2 = get_all_keep (l.seq - seq) p.1.latest_solid_ledger p.1 p1 in
        branch_keep P p.0 (λ e. (err e, p.1))
          (λ x. elim g.0 as (λ x. Result (Unit {0}) × State) [
            | err e ↦ (err e, g.1)
            | ok _ ↦ confirm_backward lib serialize fuel writes l seq g.1
          ])
          (λ e. p1)
          (λ x.
            branch_keep P g.0 (λ e. (err e, g.1))
              (λ y. confirm_backward lib serialize fuel writes l seq g.1) (λ e. p2)
              (λ y. confirm_backward_keep writes l seq g.1 p2))
