-- ===== src/Ipc/Channels.antt =====
-- The table of channels (`src/kern/arch/x86_64/ipc.rs`) keeps the promise of `Ipc.Service`.
use avaria.Fifo
use avaria.Prelude.{ℕ, suc, ◌+◌, ◌≡◌, refl, sym, ap, ◌∙◌, arith, Bool}
use avaria.Prelude.{true, false, ltb, leb, Bool-cases, inl, inr, List, [], ◌∷◌}
use avaria.Prelude.{get_or}
use avaria.Prelude.{leb→le, leb→lt, lt→leb, le→leb, ltb→lt, ltb→le, Option, replicate, zero}
use avaria.Prelude.{add_w, sub_w, update, update_self}
use avaria.Ipc.{Message, Ipc, channel, new_channel}
use avaria.Ipc.{create_channel, destroy_channel, push, pop, start, new_ring}
use avaria.Ipc.{Call, create, post, fetch, destroy, Reply, posted, fetched, serve, serve_all}
use avaria.Ipc.Rings.{queue, push_refines, pop_refines}
use avaria.Ipc.Rings
use avaria.Ipc.Service.{Service}
use avaria.Ipc.Service
use avaria.Ipc.Table.{
  IsValid, service, active-put, queue-put, put-IsValid, service-put_ring, active-lt, send_active,
  recv_active, send_inactive, recv_inactive,
}

-- What one call must do.
record Keeps (s : Ipc) (c : Call) : Type 0 where
  pub state : service (serve s c).0 ≡ (Service.step (service s) c).0
  pub reply : (serve s c).1 ≡ (Service.step (service s) c).1
  pub valid : IsValid (serve s c).0

module _ (t : Service) (i : ℕ) (on : t.active i ≡ true) where
  step-post :
      (m : Message)
      → Service.step t (post i m) ≡ (
        record t { queue = update t.queue i (Fifo.push 64 (t.queue i) m).1 },
        posted (Fifo.push 64 (t.queue i) m).0,
      )
  unfolding Service.step
  step-post m = rw on refl

  step-fetch : Service.step t (fetch i) ≡ (
    record t { queue = update t.queue i (Fifo.pop (t.queue i)).1 },
    fetched (Fifo.pop (t.queue i)).0,
  )
  unfolding Service.step
  step-fetch = rw on refl

serve-post : {s : Ipc} (v : IsValid s) (i : ℕ) (m : Message) → Keeps s (post i m)
unfolding serve Service.step
serve-post {s} v i m =
    let ch = channel s i in
    let ring = push_refines (v.rings i) m in
    elim (Bool-cases ch.active) [
      | inl on ↦
          let lt = active-lt v i on in
          let ch' = record ch { ring = (push ch.ring m).0 } in
          let moved = send_active v i m on in
          let spec = step-post (service s) i on m in
          record {
            state =
                ap (λ (x : Ipc × Bool). service x.0) moved
                ∙ service-put_ring v i lt.1 ch' refl
                ∙ ap (λ q. record (service s) { queue = update (service s).queue i q }) ring.1
                ∙ sym (ap (λ (x : Service × Reply). x.0) spec);
            reply =
                ap (λ (x : Ipc × Bool). posted x.1) moved
                ∙ ap posted ring.0
                ∙ sym (ap (λ (x : Service × Reply). x.1) spec);
            valid = rw moved (put-IsValid v i lt.1 ch' ring.2 (λ le. absurd (omega arith)));
          }
      | inr off ↦ record {
        state = rw (send_inactive s i m off, off) refl;
        reply = rw (send_inactive s i m off, off) refl;
        valid = rw (send_inactive s i m off) v;
      }
    ]

serve-fetch : {s : Ipc} (v : IsValid s) (i : ℕ) → Keeps s (fetch i)
unfolding serve Service.step
serve-fetch {s} v i =
    let ch = channel s i in
    let ring = pop_refines (v.rings i) in
    elim (Bool-cases ch.active) [
      | inl on ↦
          let lt = active-lt v i on in
          let ch' = record ch { ring = (pop ch.ring).0 } in
          let moved = recv_active v i on in
          let spec = step-fetch (service s) i on in
          record {
            state =
                ap (λ (x : Ipc × Option Message). service x.0) moved
                ∙ service-put_ring v i lt.1 ch' refl
                ∙ ap (λ q. record (service s) { queue = update (service s).queue i q }) ring.1
                ∙ sym (ap (λ (x : Service × Reply). x.0) spec);
            reply =
                ap (λ (x : Ipc × Option Message). fetched x.1) moved
                ∙ ap fetched ring.0
                ∙ sym (ap (λ (x : Service × Reply). x.1) spec);
            valid = rw moved (put-IsValid v i lt.1 ch' ring.2 (λ le. absurd (omega arith)));
          }
      | inr off ↦ record {
        state = rw (recv_inactive s i off, off) refl;
        reply = rw (recv_inactive s i off, off) refl;
        valid = rw (recv_inactive s i off) v;
      }
    ]

serve-create : {s : Ipc} (v : IsValid s) (owner : ℕ) → Keeps s (create owner)
unfolding serve create_channel Service.step
serve-create {s} v owner =
    let id = s.next_channel in
    let up : add_w 32 id 1 ≡ id + 1 = omega (arith, v.counted) in
    let back : sub_w 32 (add_w 32 id 1) 1 ≡ id = omega (arith, v.counted) in
    elim (Bool-cases (ltb id 32)) [
      | inl e ↦
          let lt = ltb→lt id 32 e in
          let bumped = record s { next_channel = add_w 32 id 1 } in
          let ch' = record (channel s id) { active = true; owner = owner } in
          let bumped-IsValid : IsValid bumped = record {
            slots = v.slots;
            counted = omega arith;
            rings = v.rings;
            fresh = λ i le. v.fresh i (omega arith);
          } in
          let queues = queue-put bumped-IsValid id lt ch' ∙ update_self (service s).queue id in
          record {
            state =
                rw (lt→leb 32 id lt, e)
                  (λ k. record {
                    next_id = up k;
                    active = active-put bumped-IsValid id lt ch' k;
                    queue = queues k;
                  });
            reply = rw (lt→leb 32 id lt, e) refl;
            valid =
                rw (lt→leb 32 id lt)
                  (put-IsValid bumped-IsValid id lt ch' (v.rings id) (λ le. absurd (omega arith)));
          }
      | inr e ↦
          let le = ltb→le id 32 e in
          let same : record s { next_channel = sub_w 32 (add_w 32 id 1) 1 } ≡ s =
            λ k. record s { next_channel = back k } in
          record {
            state = rw (le→leb 32 id le, e) (ap service same);
            reply = rw (le→leb 32 id le, e) refl;
            valid = rw (le→leb 32 id le, same) v;
          }
    ]

serve-destroy : {s : Ipc} (v : IsValid s) (i : ℕ) → Keeps s (destroy i)
unfolding serve destroy_channel Service.step
serve-destroy {s} v i = elim (Bool-cases (leb 32 i)) [
  | inl e ↦
      let off = v.fresh i (omega (arith, leb→le 32 i e, v.counted)) in
      record {
        state = rw e (λ k. record (service s) {
          active =
              (sym (update_self (service s).active i) ∙ ap (update (service s).active i) off) k;
        });
        reply = refl;
        valid = rw e v;
      }
  | inr e ↦
      let lt = leb→lt 32 i e in
      let ch' = record (channel s i) { active = false } in
      let queues = queue-put v i lt ch' ∙ update_self (service s).queue i in
      record {
        state = rw e (λ k. record {
          next_id = s.next_channel;
          active = active-put v i lt ch' k;
          queue = queues k;
        });
        reply = refl;
        valid = rw e (put-IsValid v i lt ch' (v.rings i) (λ _. refl));
      }
]

serve-Keeps : {s : Ipc} (v : IsValid s) (c : Call) → Keeps s c
serve-Keeps v (create owner) = serve-create v owner
serve-Keeps v (post i m) = serve-post v i m
serve-Keeps v (fetch i) = serve-fetch v i
serve-Keeps v (destroy i) = serve-destroy v i

-- Every call keeps the table valid.
pub serve-IsValid : {s : Ipc} → IsValid s → (c : Call) → IsValid (serve s c).0
serve-IsValid v c = (serve-Keeps v c).valid

-- From a valid table, any sequence of `create_channel`, `send`, `recv` and `destroy_channel` gets
-- the replies of the abstract service: ids in order up to the 32nd, and for each active id a
-- first-in first-out queue of at most 63 messages that no call on another id touches.
pub serve_all_refines :
    (cs : List Call) {s : Ipc} → IsValid s → serve_all s cs ≡ Service.run (service s) cs
unfolding serve_all Service.run
serve_all_refines [] v = refl
serve_all_refines (c ∷ cs) v =
    let k = serve-Keeps v c in rw (serve_all_refines cs k.valid, k.state, k.reply) refl

get_or-replicate {ℓ} : {A : Type ℓ} (n i : ℕ) (a : A) → get_or (replicate n a) i a ≡ a
get_or-replicate zero i a = refl
get_or-replicate (suc n) zero a = refl
get_or-replicate (suc n) (suc i) a = get_or-replicate n i a

new_ring-IsValid : Rings.IsValid new_ring
new_ring-IsValid = record { slots = refl; head_in = omega arith; tail_in = omega arith }

-- The table that the kernel starts with is valid.
pub start-IsValid : IsValid start
start-IsValid = record {
  slots = refl;
  counted = omega arith;
  rings = λ i. rw (get_or-replicate 32 i new_channel) new_ring-IsValid;
  fresh = λ i _. rw (get_or-replicate 32 i new_channel) refl;
}
