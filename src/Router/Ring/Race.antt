-- ===== src/Router/Ring/Race.antt =====
-- `try_push` of the ring (include/router/LockFreeMessageQueue.h) on two threads at once.
use my_vm_os.Base.{
  ℕ, ◌+◌, ◌<◌, ◌≡◌, ◌∙◌, refl, ap, inl, inr, Bool, true, false, List, [], ◌∷◌, ◌++◌, ◌==◌, arith,
  Bool-cases, ==_self,
}
use my_vm_os.Router.Ring.{LockFreeMessageQueue, max_queue_size, write, next, size}
use my_vm_os.Router.Ring.Fifo.{contents, IsRing, contents-write, contents-tail, size-full}
use my_vm_os.Router.Ring.Interleave.{
  Pusher, at_rest, loaded, has_room, Threads, step_push, size-write,
}

-- The threads take turns.
abbrev pub in_turn : List Bool
in_turn = true ∷ false ∷ true ∷ false ∷ true ∷ false ∷ true ∷ false ∷ []

module _ {M : Type 0} where
  -- The steps of two pushers, `true` for the first, that call `try_push` with `a` and `b`.
  unfoldable pub two_pushers : M → M → List Bool → Threads M × Pusher M → Threads M × Pusher M
  two_pushers a b [] s = s
  two_pushers a b (true ∷ turns) (s, other) = two_pushers a b turns (step_push a s, other)
  two_pushers a b (false ∷ turns) (s, other) =
      let after = step_push b (record s { pusher = other }) in
      two_pushers a b turns (record after { pusher = s.pusher }, after.pusher)

  abbrev pub idle : LockFreeMessageQueue M → Threads M
  idle q = record { ring = q; pusher = at_rest; popper = at_rest; sent = []; received = [] }

  step_push-room :
      (msg : M) (s : Threads M) (t : ℕ) (m : M)
      → (next t == s.ring.head) ≡ false
      → step_push msg (record s { pusher = loaded t m }) ≡ record s { pusher = has_room t m }
  unfolding step_push
  step_push-room msg s t m h = rw h refl

  two_pushers-turns :
      (q : LockFreeMessageQueue M) (a b : M)
      → (next q.tail == q.head) ≡ false
      → two_pushers a b in_turn (idle q, at_rest) ≡ (
        record (idle q) {
          ring = record q { queue = write q.tail b (write q.tail a q.queue); tail = next q.tail };
          sent = a ∷ b ∷ [];
        },
        at_rest,
      )
  unfolding two_pushers step_push
  two_pushers-turns q a b h =
      let t = q.tail in
      let turns : List Bool = false ∷ true ∷ false ∷ true ∷ false ∷ [] in
      ap (λ (s : Threads M). two_pushers a b turns (s, loaded t b))
        (step_push-room a (idle q) t a h)
      ∙ ap
          (λ (s : Threads M).
            two_pushers a b (true ∷ false ∷ true ∷ false ∷ [])
              (record s { pusher = has_room t a }, s.pusher))
          (step_push-room b (idle q) t b h)

  -- Where two threads take turns in try_push on a ring with room, both calls succeed and only the
  -- second message is in the ring.
  pub two_pushers-lost :
      (q : LockFreeMessageQueue M) (a b : M)
      → IsRing q
      → size q + 1 < max_queue_size
      → let s = (two_pushers a b in_turn (idle q, at_rest)).0 in
        (s.sent ≡ a ∷ b ∷ []) × (contents s.ring ≡ contents q ++ (b ∷ []))
  two_pushers-lost q a b v room =
      let free : (next q.tail == q.head) ≡ false = elim (Bool-cases (next q.tail == q.head)) [
        | inl e ↦ let full = size-full q v (ground arith) in ground arith
        | inr e ↦ e
      ] in
      let one = record q { queue = write q.tail a q.queue } in
      let two = record q { queue = write q.tail b one.queue } in
      let one_valid : IsRing one = record {
        head_below = v.head_below;
        tail_below = v.tail_below;
      } in
      let two_valid : IsRing two = record {
        head_below = v.head_below;
        tail_below = v.tail_below;
      } in
      let two_room : size two + 1 < max_queue_size = rw (size-write q two.queue) room in
      let kept : contents two ≡ contents q =
        contents-write one b one_valid ∙ contents-write q a v in
      let stored = contents-tail two two_valid two_room in
      let there : two.queue q.tail ≡ b = rw (==_self q.tail) refl in
      let last : contents two ++ (two.queue q.tail ∷ []) ≡ contents q ++ (b ∷ []) =
        rw (kept, there) refl in
      rw (two_pushers-turns q a b free) ((refl, stored.0 ∙ last))
