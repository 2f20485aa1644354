-- ===== src/Ipc/Service.antt =====
-- What the channels of `src/kern/arch/x86_64/ipc.rs` promise: for each id that was handed out and
-- not destroyed, a queue of at most 63 messages of its own.
use avaria.Fifo
use avaria.Prelude.{
  ℕ, ◌+◌, Bool, true, false, ltb, if◌then◌else◌, none, some, List, [], ◌∷◌, update,
}
use avaria.Ipc.{
  Message, Call, create, post, fetch, destroy, Reply, created, posted, fetched, destroyed,
}

pub record Service : Type 0 where
  pub next_id : ℕ
  pub active : ℕ → Bool
  pub queue : ℕ → List Message

unfoldable pub step : Service → Call → Service × Reply
step t (create owner) =
    if ltb t.next_id 32
    then (
      record t { next_id = t.next_id + 1; active = update t.active t.next_id true },
      created (some t.next_id),
    )
    else (t, created none)
step t (post i msg) =
    let (sent, q) = Fifo.push 64 (t.queue i) msg in
    if t.active i then (record t { queue = update t.queue i q }, posted sent) else (t, posted false)
step t (fetch i) =
    let (msg, q) = Fifo.pop (t.queue i) in
    if t.active i then (record t { queue = update t.queue i q }, fetched msg) else (t, fetched none)
step t (destroy i) = (record t { active = update t.active i false }, destroyed)

unfoldable pub run : Service → List Call → List Reply
run t [] = []
run t (c ∷ cs) = let (t', r) = step t c in r ∷ run t' cs
