-- ===== src/Node/Pending.antt =====
-- An answer is taken once for each command that waits for it.
use aknode.Base.{
  ℕ, suc, ◌+◌, ==_refl, if◌then◌else◌, true, ◌⊎◌, inl, inr, Option, none, some, List, [], ◌∷◌, ◌++◌,
  take, drop, ◌≡◌, refl, ap, ◌∙◌, arith, Bool-cases, Option-cases,
}
use aknode.Node.Peers.{
  Cmd, cmd_ping, Wdata, Peer, Refusal, no_command, note, send, write, answers, is_written, received,
}

-- How many commands `m` answers.
unfoldable pub waiting : Cmd → Option ℕ → List Wdata → ℕ
waiting cmd m [] = 0
waiting cmd m (w ∷ ws) = (if answers cmd m w then 1 else 0) + waiting cmd m ws

-- What `received` leaves.
abbrev drop_at : Option ℕ → List Wdata → List Wdata
drop_at none ws = ws
drop_at (some i) ws = take i ws ++ drop (suc i) ws

abbrev Taken : Cmd → Option ℕ → Option ℕ → List Wdata → Type 0
Taken cmd m none ws = waiting cmd m ws ≡ 0
Taken cmd m (some i) ws = waiting cmd m ws ≡ waiting cmd m (drop_at (some i) ws) + 1

is_written-Taken :
    (cmd : Cmd) (m : Option ℕ) (ws : List Wdata) → Taken cmd m (is_written cmd m ws) ws
unfolding waiting is_written
is_written-Taken cmd m [] = refl
is_written-Taken cmd m (w ∷ ws) = elim (Bool-cases (answers cmd m w)) [
  | inl hit ↦ rw hit (ground (arith, hit))
  | inr miss ↦ elim (Option-cases (is_written cmd m ws)) [
    | inl e ↦
        let rest = rw e at (is_written-Taken cmd m ws) in rw (miss, e) (ground (arith, rest, miss))
    | inr (i, e) ↦
        let rest = rw e at (is_written-Taken cmd m ws) in rw (miss, e) (ground (arith, rest, miss))
  ]
]

abbrev pub Answered : Cmd → Option ℕ → Peer → (Refusal ⊎ Unit {0}) × Peer → Type 0
Answered cmd m p (inl e, p') =
    (e ≡ no_command) × (waiting cmd m p.written ≡ 0) × (p'.written ≡ p.written)
Answered cmd m p (inr u, p') = waiting cmd m p.written ≡ waiting cmd m p'.written + 1

-- An answer is refused exactly with the error for a missing command, when no written command
-- waits for it, and then nothing changes; otherwise one less of the commands that it answers
-- waits afterwards.
pub received-Answered : (cmd : Cmd) (m : Option ℕ) (p : Peer) → Answered cmd m p (received cmd m p)
unfolding received
received-Answered cmd m p = elim (Option-cases (is_written cmd m p.written)) [
  | inl e ↦ rw (e, received) (refl, rw e at (is_written-Taken cmd m p.written), refl)
  | inr (i, e) ↦ rw (e, received) (rw e at (is_written-Taken cmd m p.written))
]

waiting-append :
    (cmd : Cmd) (m : Option ℕ) (xs ys : List Wdata)
    → waiting cmd m (xs ++ ys) ≡ waiting cmd m xs + waiting cmd m ys
unfolding waiting
waiting-append cmd m [] ys = omega arith
waiting-append cmd m (x ∷ xs) ys = omega (arith, waiting-append cmd m xs ys)

waiting-one :
    (n : ℕ) (w : Wdata)
    → answers cmd_ping (some n) w ≡ true
    → waiting cmd_ping (some n) (w ∷ []) ≡ 1
unfolding waiting
waiting-one n w e = rw e refl

pub waiting-ping :
    (n now : ℕ) (net : Refusal ⊎ Unit {0}) (p : Peer)
    → waiting cmd_ping (some n) (write cmd_ping (some n) now net p).1.written
      ≡ waiting cmd_ping (some n) p.written + 1
unfolding write note send answers
waiting-ping n now net p =
    waiting-append cmd_ping (some n) p.written _
    ∙ ap (λ k. waiting cmd_ping (some n) p.written + k)
        (waiting-one n (record { cmd = cmd_ping; data_of = some n; time = now }) (==_refl n))
