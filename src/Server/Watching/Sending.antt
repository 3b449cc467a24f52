-- ===== src/Server/Watching/Sending.antt =====
-- `enqueue` arms the write event exactly when it queues.
use the_socket_exchange.Common.{
  ℕ, some, List, [], ◌∷◌, ◌++◌, Bool, true, false, not, ◌≡◌, refl, ap, ◌∙◌, sym, subst,
  if◌then◌else◌, nat_eq, Bytes, is_empty, Option-cases, Bool-cases, inl, inr,
}
use the_socket_exchange.Assoc
use the_socket_exchange.Assoc.{Assoc}
use the_socket_exchange.Session.{ClientSession}
use the_socket_exchange.Os.{Os, writes, kq_add}
use the_socket_exchange.Os.Sending.{SendEnd, finished, blocked, broken, fast_path}
use the_socket_exchange.Os.Registrations.{
  kq_add-watches, kq_add-IsElsewhere, kq_add_self, kq_add-writes_read,
}
use the_socket_exchange.Server.{
  Server, store, with_os, sent_by, queue_rest, finish_enqueue, enqueue_on, enqueue, framed,
}
use the_socket_exchange.Server.Watching.{
  IsWatching, IsWatched, IsServed, insert-IsWatching, IsWatching-apart,
}

-- A session as it is.
pub IsWatching-IsServed :
    (fd : ℕ) (c : ClientSession) (m : Assoc ℕ ClientSession) (os : Os)
    → IsWatching m os
    → Assoc.lookup fd m ≡ some c
    → IsServed fd c os
IsWatching-IsServed fd c m os w e = record {
  own = w.keyed fd c e;
  reading = w.reading fd c e;
  writing = (w.writing fd c e).0;
  queued = (w.writing fd c e).1;
}

occupied : {A : Type 0} (xs : List A) (x : A) → true ≡ not (is_empty (xs ++ x ∷ []))
occupied [] x = refl
occupied (y ∷ xs) x = refl

queue_rest-IsWatched :
    (fd : ℕ) (c : ClientSession) (rest : Bytes) (s : Server)
    → IsWatched s
    → Assoc.lookup fd s.sessions ≡ some c
    → IsWatched (queue_rest fd c rest s)
queue_rest-IsWatched fd c rest s w e = go c.want_write refl
  where
    v : IsServed fd c s.os
    v = IsWatching-IsServed fd c s.sessions s.os w e

    c' : ClientSession
    c' = record c { outbuf = c.outbuf ++ rest ∷ []; want_write = true }

    go :
        (b : Bool)
        → c.want_write ≡ b
        → IsWatched (store fd c' (if b then s else with_os (kq_add c.fd writes) s))
    go true k =
        insert-IsWatching fd s.sessions s.os s.os w w.sound (λ g f apart. refl) c'
          (record {
            own = v.own;
            reading = v.reading;
            writing = v.writing ∙ k;
            queued = occupied c.outbuf rest;
          })
    go false k =
        subst (λ i. IsWatched (store fd c' (with_os (kq_add i writes) s))) (sym v.own)
          (insert-IsWatching fd s.sessions s.os (kq_add fd writes s.os) w
            (kq_add-watches fd writes s.os w.sound).1 (kq_add-IsElsewhere fd s.os w.sound writes) c'
            (record {
              own = v.own;
              reading = kq_add-writes_read fd s.os w.sound ∙ v.reading;
              writing = kq_add_self fd s.os w.sound writes;
              queued = occupied c.outbuf rest;
            }))

finish_enqueue-IsWatched :
    (end : SendEnd) (fd : ℕ) (c : ClientSession) (rest : Bytes) (s : Server)
    → IsWatched s
    → Assoc.lookup fd s.sessions ≡ some c
    → IsWatched (finish_enqueue end fd c rest s)
unfolding finish_enqueue
finish_enqueue-IsWatched finished fd c rest s w e = w
finish_enqueue-IsWatched broken fd c rest s w e = w
finish_enqueue-IsWatched blocked fd c rest s w e = queue_rest-IsWatched fd c rest s w e

-- To store a session with another queue, and nothing else.
pub requeue-IsWatched :
    (fd : ℕ) (c : ClientSession) (queue : List Bytes) (s : Server)
    → IsWatched s
    → Assoc.lookup fd s.sessions ≡ some c
    → is_empty queue ≡ is_empty c.outbuf
    → IsWatched (store fd (record c { outbuf = queue }) s)
requeue-IsWatched fd c queue s w e k =
    let v = IsWatching-IsServed fd c s.sessions s.os w e in
    insert-IsWatching fd s.sessions s.os s.os w w.sound (λ g f apart. refl)
      (record c { outbuf = queue })
      (record {
        own = v.own;
        reading = v.reading;
        writing = v.writing;
        queued = v.queued ∙ ap not (sym k);
      })

more :
    {A : Type 0} (xs : List A) (x : A) → is_empty xs ≡ false → is_empty (xs ++ x ∷ []) ≡ is_empty xs
more [] x k = cc
more (y ∷ xs) x k = refl

enqueue_on-IsWatched :
    (fd : ℕ) (c : ClientSession) (text : Bytes) (s : Server)
    → IsWatched s
    → Assoc.lookup fd s.sessions ≡ some c
    → IsWatched (enqueue_on fd c text s)
unfolding enqueue_on
enqueue_on-IsWatched fd c text s w e = elim (Bool-cases (is_empty c.outbuf)) [
  | inl k ↦
      let run = fast_path s.os.sends [] text in
      let t = sent_by c.fd run s in
      let u : IsWatched t = IsWatching-apart s.sessions s.os t.os refl refl w in
      rw k (finish_enqueue-IsWatched run.end fd c run.rest t u e)
  | inr k ↦ rw k (requeue-IsWatched fd c (c.outbuf ++ text ∷ []) s w e (more c.outbuf text k))
]

pub enqueue-IsWatched :
    (fd : ℕ) (line : Bytes) (s : Server) → IsWatched s → IsWatched (enqueue fd line s)
unfolding enqueue
enqueue-IsWatched fd line s w = elim (Option-cases (Assoc.lookup fd s.sessions)) [
  | inl e ↦ rw (e, enqueue) w
  | inr (c, e) ↦ rw (e, enqueue) (enqueue_on-IsWatched fd c (framed line) s w e)
]
