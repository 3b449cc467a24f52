-- ===== src/Server/Streams/Sending.antt =====
-- `enqueue` against the streams of the clients.
use the_socket_exchange.Common.{
  nat_beq_iff, subst, Bool-cases, concat, ℕ, some, List, [], ◌∷◌, ◌++◌, true, ◌≡◌, ◌≢◌, refl, ap,
  ◌∙◌, sym, arith, ◌==◌, nat_eq, Bytes, if◌then◌else◌, Bool-cases, inl, inr, is_empty, subst, All,
  append_assoc, append-nil,
}
use the_socket_exchange.Assoc
use the_socket_exchange.Session.{ClientSession}
use the_socket_exchange.Os.Sending.{SendEnd, finished, blocked, broken, SendRun, fast_path}
use the_socket_exchange.Os.Sending.Laws.{IsFine, fast_path-IsSent, fast_path-IsFine}
use the_socket_exchange.Server.{
  Server, store, sent_by, queue_rest, finish_enqueue, enqueue_on, enqueue, framed,
}
use the_socket_exchange.Server.Streams.{
  wire_to, pending_of, stream, stream_stored, wire_sent, queue_rest_streams, concat-append,
}

-- What `enqueue` of a text adds to the streams. `lost` is what a hard error drops: nothing on a
-- connection that is up.
pub record Delivers (fd : ℕ) (text : Bytes) (s s' : Server) : Type 0 where
  pub lost : Bytes
  pub own : stream fd s' ++ lost ≡ stream fd s ++ text
  pub whole : All IsFine s.os.sends → lost ≡ []
  pub fine : All IsFine s.os.sends → All IsFine s'.os.sends
  pub others : (g : ℕ) → g ≢ fd → stream g s' ≡ stream g s

is_empty_nil {ℓ} : {A : Type ℓ} (xs : List A) → is_empty xs ≡ true → xs ≡ []
is_empty_nil [] h = refl
is_empty_nil (x ∷ xs) h = cc

-- A session with queued output: the text joins the queue.
queued-Delivers :
    (fd : ℕ) (c : ClientSession) (text : Bytes) (s : Server)
    → Assoc.lookup fd s.sessions ≡ some c
    → Delivers fd text s (store fd (record c { outbuf = c.outbuf ++ text ∷ [] }) s)
queued-Delivers fd c text s found = record {
  lost = [];
  own =
      append-nil _
      ∙ (stream_stored fd _ s).0
      ∙ ap (◌++◌ (wire_to fd s.os.wire))
          (concat-append c.outbuf (text ∷ []) ∙ ap (◌++◌ (concat c.outbuf)) (append-nil text))
      ∙ sym (append_assoc (wire_to fd s.os.wire) (concat c.outbuf) text)
      ∙ ap (λ x. (wire_to fd s.os.wire ++ pending_of x) ++ text) (sym found);
  whole = λ f. refl;
  fine = λ f. f;
  others = (stream_stored fd _ s).1;
}

module _ (fd : ℕ) (c : ClientSession) (text : Bytes) (s : Server)
    (found : Assoc.lookup fd s.sessions ≡ some c) (idle : c.outbuf ≡ []) where
  fast : SendRun
  fast = fast_path s.os.sends [] text

  nothing_pending : stream fd s ≡ wire_to fd s.os.wire
  nothing_pending =
      ap (λ x. wire_to fd s.os.wire ++ pending_of x) found
      ∙ ap (λ q. wire_to fd s.os.wire ++ concat q) idle
      ∙ append-nil (wire_to fd s.os.wire)

  all_there : (wire_to fd s.os.wire ++ fast.taken) ++ fast.rest ≡ stream fd s ++ text
  unfolding fast
  all_there =
      append_assoc (wire_to fd s.os.wire) fast.taken fast.rest
      ∙ ap (◌++◌ (wire_to fd s.os.wire)) (fast_path-IsSent s.os.sends [] text).exact
      ∙ ap (λ w. w ++ text) (sym nothing_pending)

  stopped-Delivers :
      (All IsFine s.os.sends → fast.rest ≡ []) → Delivers fd text s (sent_by fd fast s)
  unfolding fast
  stopped-Delivers h = record {
    lost = fast.rest;
    own =
        ap (λ w. w ++ fast.rest)
          (ap (λ w. w ++ pending_of (Assoc.lookup fd s.sessions)) (wire_sent fd fast s).0
            ∙ ap (λ x. (wire_to fd s.os.wire ++ fast.taken) ++ pending_of x) found
            ∙ ap (λ q. (wire_to fd s.os.wire ++ fast.taken) ++ concat q) idle
            ∙ append-nil (wire_to fd s.os.wire ++ fast.taken))
        ∙ all_there;
    whole = h;
    fine = λ f. (fast_path-IsFine s.os.sends [] text f).1;
    others = (wire_sent fd fast s).1;
  }

  blocked-Delivers : Delivers fd text s (queue_rest fd c fast.rest (sent_by fd fast s))
  unfolding fast
  blocked-Delivers =
      let q = queue_rest_streams fd c fast.rest (sent_by fd fast s) in
      record {
        lost = [];
        own =
            append-nil _
            ∙ q.0
            ∙ ap (λ w. w ++ concat (c.outbuf ++ fast.rest ∷ [])) (wire_sent fd fast s).0
            ∙ ap (λ l. (wire_to fd s.os.wire ++ fast.taken) ++ concat (l ++ fast.rest ∷ [])) idle
            ∙ ap (◌++◌ (wire_to fd s.os.wire ++ fast.taken)) (append-nil fast.rest)
            ∙ all_there;
        whole = λ f. refl;
        fine = λ f. rw q.2 (fast_path-IsFine s.os.sends [] text f).1;
        others = λ g h. q.1 g h ∙ (wire_sent fd fast s).1 g h;
      }

  idle-Delivers :
      (end : SendEnd)
      → fast.end ≡ end
      → Delivers fd text s (finish_enqueue end fd c fast.rest (sent_by fd fast s))
  unfolding finish_enqueue fast
  idle-Delivers finished e = stopped-Delivers (λ f. (fast_path-IsSent s.os.sends [] text).done e)
  idle-Delivers broken e =
      stopped-Delivers (λ f. absurd ((fast_path-IsFine s.os.sends [] text f).0 e))
  idle-Delivers blocked e = blocked-Delivers

-- `enqueue` puts the line and its newline behind everything that the client was sent before, and
-- touches no other client's stream. A hard error of `send` can cut off an end of the line; nothing
-- is cut off while the connection is up.
pub enqueue-Delivers :
    (fd : ℕ) (line : Bytes) (s : Server) (c : ClientSession)
    → Assoc.lookup fd s.sessions ≡ some c
    → c.fd ≡ fd
    → Delivers fd (framed line) s (enqueue fd line s)
unfolding enqueue enqueue_on fast
enqueue-Delivers fd line s c found keyed = elim (Bool-cases (is_empty c.outbuf)) [
  | inl e ↦
      rw (found, enqueue, e)
        (subst
          (λ d.
            Delivers fd (framed line) s (finish_enqueue run.end fd c run.rest (sent_by d run s)))
          (sym keyed)
          (idle-Delivers fd c (framed line) s found (is_empty_nil c.outbuf e) run.end refl))
  | inr e ↦ rw (found, enqueue, e) (queued-Delivers fd c (framed line) s found)
]
  where
    run : SendRun
    run = fast_path s.os.sends [] (framed line)

-- While the connection is up, `enqueue` puts the line and its newline behind everything that the
-- client was sent before, once, and touches no other client's stream.
pub enqueue-streams :
    (fd : ℕ) (line : Bytes) (s : Server) (c : ClientSession)
    → Assoc.lookup fd s.sessions ≡ some c
    → c.fd ≡ fd
    → All IsFine s.os.sends
    → (g : ℕ) → stream g (enqueue fd line s) ≡ stream g s ++ (if fd == g then framed line else [])
enqueue-streams fd line s c found keyed fine g =
    let d = enqueue-Delivers fd line s c found keyed in
    elim (Bool-cases (fd == g)) [
      | inl e ↦ rw e (
          subst (λ k. stream k (enqueue fd line s) ≡ stream k s ++ framed line)
            ((nat_beq_iff fd g).0 e)
            (sym (append-nil _)
              ∙ ap (◌++◌ (stream fd (enqueue fd line s))) (sym (d.whole fine))
              ∙ d.own))
      | inr e ↦
          rw e (d.others g (λ h. ground (arith, nat_beq_iff fd g)) ∙ sym (append-nil (stream g s)))
    ]
