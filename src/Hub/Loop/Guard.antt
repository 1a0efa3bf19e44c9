-- ===== src/Hub/Loop/Guard.antt =====
-- `StreamGuard::drop`: what a caller that leaves does to its stream.
use anvil_ring.Base.{ℕ, ◌≡◌, ◌⊎◌, true, false, [], ◌∷◌, ◌++◌, get, nat_key, ==_iff, arith}
use anvil_ring.Frames.{end_frame}
use anvil_ring.Hub.State.{Session}
use anvil_ring.Hub.Session.{try_send, mem}
use anvil_ring.Hub.Session.Close.{mem-delete}
use anvil_ring.Hub.Loop.{drop_guard, completed_of}

-- The stream is unregistered, and nothing is sent for one that has ended. For any other, the tether
-- is told to stop it, or its writer is gone, or, with the queue full, the session is told to stop.
pub drop_guard-stops :
    (id : ℕ) (s : Session)
    → (mem id (drop_guard id s).streams ≡ false)
      × (completed_of (get id s.states) ≡ true → (drop_guard id s).queue ≡ s.queue)
      × (completed_of (get id s.states) ≡ false
          → ((drop_guard id s).queue ≡ s.queue ++ (end_frame id [] ∷ []))
            ⊎ ((s.writer ≡ false) ⊎ ((drop_guard id s).abort ≡ true)))
unfolding drop_guard try_send
drop_guard-stops id s = ground (arith, mem-delete id id s.streams, ==_iff id id)
