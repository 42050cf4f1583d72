-- ===== src/Node/Known.antt =====
-- What `putAddrs` and `initDB` make of the known addresses.
use aknode.Base.{
  ◌+◌, ◌≤◌, max, ◌==◌, ==_iff, ltb, if◌then◌else◌, Bool, true, false, Option, none, some, List, [],
  ◌∷◌, length, Dict, lookup, insert, lookup-insert, length-insert-le, contains, ◌≡◌, refl, sym, ◌∙◌,
  ◌⊎◌, inl, inr, arith, Bool-cases, Option-cases,
}
use aknode.Node.Types.{Text, Addr, service_full, Net, Setting, in_blacklist}
use aknode.Node.Addresses.{
  Nodes, max_addrs, msg_max_addrs, put, put_addr, put_each, put_addrs, put_defaults, purge, loaded,
  init_db,
}

abbrev pub default_addr : Text → Addr
default_addr k = record { address = k; service = service_full }

module _ (net : Net) (s : Setting) where
  length-put_addr :
      (a : Addr) (m : Dict Addr)
      → (length (put_addr net s a m) ≤ max (length m) 1001)
        × (length (put_addr net s a m) ≤ length m + 1)
  unfolding put_addr
  length-put_addr a m = elim (Option-cases (lookup a.address m)) [
    | inl gone ↦ rw gone (ground (arith, length-insert-le a.address a m))
    | inr (v, there) ↦ rw there (ground arith)
  ]

  length-put_each :
      (added : List Addr) (m : Dict Addr)
      → (length (put_each net s added m) ≤ max (length m) 1001)
        × (length (put_each net s added m) ≤ length m + length added)
  unfolding put_each
  length-put_each [] m = ground arith
  length-put_each (a ∷ rest) m =
      ground (arith, length-put_each rest (put_addr net s a m), length-put_addr a m)

  -- If at most maxAddrs + 1 addresses are known, putAddrs leaves at most as many, and at most the
  -- larger of the number before and of msg.MaxAddrs plus the number of those added.
  pub length-put_addrs :
      (writes : Bool) (added : List Addr) (n : Nodes)
      → length n.addrs ≤ max_addrs + 1
      → (length (put_addrs net s writes added n).1.addrs ≤ max_addrs + 1)
        × (length (put_addrs net s writes added n).1.addrs
            ≤ max (length n.addrs) (msg_max_addrs + length added))
  unfolding put_addrs put
  length-put_addrs true added n le = ground (arith, length-put_each added n.addrs)
  length-put_addrs false added n le = ground (arith, length-put_each added n.addrs)

  -- `k` is bound as before, or is new and not on the blacklist.
  abbrev pub Admitted : Text → Dict Addr → Dict Addr → Type 0
  Admitted k old new =
      (lookup k new ≡ lookup k old) ⊎ ((lookup k old ≡ none) × (in_blacklist net s k ≡ false))

  put_addr-Admitted : (a : Addr) (k : Text) (m : Dict Addr) → Admitted k m (put_addr net s a m)
  unfolding put_addr
  put_addr-Admitted a k m = elim (Bool-cases (in_blacklist net s a.address)) [
    | inl listed ↦ rw listed (inl refl)
    | inr free ↦ elim (Bool-cases (ltb max_addrs (length m))) [
      | inl full ↦ rw (free, full) (inl refl)
      | inr room ↦ elim (Option-cases (lookup a.address m)) [
        | inl gone ↦ elim (Bool-cases (a.address == k)) [
          | inl same ↦
              let e : a.address ≡ k = (==_iff a.address k).0 same in rw (sym e) (inr (gone, free))
          | inr other ↦ rw (free, room, gone) (inl (lookup-insert a.address k a m ∙ rw other refl))
        ]
        | inr (v, there) ↦ rw (free, room, there) (inl refl)
      ]
    ]
  ]

  Admitted-trans :
      (k : Text) (m1 m2 m3 : Dict Addr) → Admitted k m1 m2 → Admitted k m2 m3 → Admitted k m1 m3
  Admitted-trans k m1 m2 m3 (inl e) (inl f) = inl (f ∙ e)
  Admitted-trans k m1 m2 m3 (inl e) (inr (gone, free)) = inr (sym e ∙ gone, free)
  Admitted-trans k m1 m2 m3 (inr new) b = inr new

  put_each-Admitted :
      (added : List Addr) (k : Text) (m : Dict Addr) → Admitted k m (put_each net s added m)
  unfolding put_each
  put_each-Admitted [] k m = inl refl
  put_each-Admitted (a ∷ rest) k m =
      Admitted-trans k m (put_addr net s a m) (put_each net s rest (put_addr net s a m))
        (put_addr-Admitted a k m) (put_each-Admitted rest k (put_addr net s a m))

  -- After putAddrs, whether the database took the write or not, an address is known as it was, or
  -- it was not known and is not on the blacklist.
  pub put_addrs-Admitted :
      (writes : Bool) (added : List Addr) (k : Text) (n : Nodes)
      → Admitted k n.addrs (put_addrs net s writes added n).1.addrs
  unfolding put_addrs put
  put_addrs-Admitted writes added k n = elim (Bool-cases (ltb msg_max_addrs (length n.addrs))) [
    | inl full ↦ rw full (inl refl)
    | inr room ↦ rw room (elim (Bool-cases writes) [
      | inl e ↦ rw e (put_each-Admitted added k n.addrs)
      | inr e ↦ rw e (put_each-Admitted added k n.addrs)
    ])
  ]

  lookup-put_defaults :
      (ds : List Text) (k : Text) (m : Dict Addr)
      → lookup k (put_defaults net s ds m)
        ≡ (if contains ds k then some (default_addr k) else lookup k m)
  unfolding put_defaults contains
  lookup-put_defaults [] k m = refl
  lookup-put_defaults (a ∷ ds) k m =
      lookup-put_defaults ds k (insert a (default_addr a) m)
      ∙ rw (lookup-insert a k (default_addr a) m) elim (Bool-cases (a == k)) [
        | inl same ↦ let e : a ≡ k = (==_iff a k).0 same in rw (same, e) (ground arith)
        | inr other ↦ rw other refl
      ]

  lookup-purge :
      (k : Text) (m : Dict Addr)
      → lookup k (purge net s m) ≡ (if in_blacklist net s k then none else lookup k m)
  unfolding purge lookup
  lookup-purge k [] = ground arith
  lookup-purge k ((j, a) ∷ m) = elim (Bool-cases (j == k)) [
    | inl same ↦ let e : j ≡ k = (==_iff j k).0 same in rw e (ground (arith, lookup-purge k m))
    | inr other ↦ ground (arith, lookup-purge k m)
  ]

  -- After initDB an address on the blacklist is not known, a default node is known with full
  -- service, and any other address is known as the database holds it.
  pub lookup-init_db :
      (held : Option (Dict Addr)) (k : Text)
      → lookup k (init_db net s held).addrs ≡ (
          if in_blacklist net s k
          then none
          else if contains s.default_nodes k
          then some (default_addr k)
          else lookup k (loaded held))
  unfolding init_db
  lookup-init_db held k =
      lookup-purge k (put_defaults net s s.default_nodes (loaded held))
      ∙ rw (lookup-put_defaults s.default_nodes k (loaded held)) refl
