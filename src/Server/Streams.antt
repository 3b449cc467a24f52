-- ===== src/Server/Streams.antt =====
-- What a client is sent: the bytes that the operating system took for its descriptor, and behind
-- them those that are still queued.
pub mod Sending
use the_socket_exchange.Common.{
  Bool-cases, concat, ℕ, Option, none, some, List, [], ◌∷◌, ◌++◌, Bool, true, false, ◌≡◌, ◌≢◌, refl,
  ap, ◌∙◌, sym, arith, ◌==◌, nat_eq, Bytes, if◌then◌else◌, Bool-cases, inl, inr, append_assoc,
  append-nil,
}
use the_socket_exchange.Assoc
use the_socket_exchange.Assoc.Laws.{lookup-insert_self, lookup-insert_ne}
use the_socket_exchange.Session.{ClientSession}
use the_socket_exchange.Os.{
  Os, Packet, Filter, Registration, change, disarm, writes, kq_add, kq_del,
}
use the_socket_exchange.Os.Sending.{SendRun}
use the_socket_exchange.Server.{Server, store, with_os, sent_by, queue_rest}

-- The bytes that were taken for a descriptor.
abbrev pub wire_to : ℕ → List Packet → Bytes
wire_to fd [] = []
wire_to fd (p ∷ ps) = (if p.fd == fd then p.bytes else []) ++ wire_to fd ps

abbrev pub pending_of : Option ClientSession → Bytes
pending_of none = []
pending_of (some c) = concat c.outbuf

abbrev pub stream : ℕ → Server → Bytes
stream fd s = wire_to fd s.os.wire ++ pending_of (Assoc.lookup fd s.sessions)

wire_to-append :
    (fd : ℕ) (ps qs : List Packet) → wire_to fd (ps ++ qs) ≡ wire_to fd ps ++ wire_to fd qs
wire_to-append fd [] qs = refl
wire_to-append fd (p ∷ ps) qs =
    ap (◌++◌ (if p.fd == fd then p.bytes else [])) (wire_to-append fd ps qs)
    ∙ sym (append_assoc (if p.fd == fd then p.bytes else []) (wire_to fd ps) (wire_to fd qs))

pub wire_to_one :
    (fd g : ℕ) (ps : List Packet) (bytes : Bytes)
    → wire_to g (ps ++ record { fd = fd; bytes = bytes } ∷ [])
      ≡ wire_to g ps ++ (if fd == g then bytes else [])
wire_to_one fd g ps bytes =
    wire_to-append g ps _ ∙ ap (◌++◌ (wire_to g ps)) (append-nil (if fd == g then bytes else []))

pub concat-append : (xs ys : List Bytes) → concat (xs ++ ys) ≡ concat xs ++ concat ys
concat-append [] ys = refl
concat-append (x ∷ xs) ys =
    ap (◌++◌ x) (concat-append xs ys) ∙ sym (append_assoc x (concat xs) (concat ys))

change-keeps :
    (f : List Registration → List Registration) (os : Os) (l : List Bool)
    → ((change f os l).wire ≡ os.wire) × ((change f os l).sends ≡ os.sends)
change-keeps f os [] = (refl, refl)
change-keeps f os (true ∷ l) = (refl, refl)
change-keeps f os (false ∷ l) = (refl, refl)

pub kq_add-keeps :
    (fd : ℕ) (filter : Filter) (os : Os)
    → ((kq_add fd filter os).wire ≡ os.wire) × ((kq_add fd filter os).sends ≡ os.sends)
unfolding kq_add
kq_add-keeps fd filter os =
    let r : Registration = record { ident = fd; filter = filter } in
    change-keeps (λ a. r ∷ disarm r a) os os.changes

pub kq_del-keeps :
    (fd : ℕ) (filter : Filter) (os : Os)
    → ((kq_del fd filter os).wire ≡ os.wire) × ((kq_del fd filter os).sends ≡ os.sends)
unfolding kq_del
kq_del-keeps fd filter os =
    let r : Registration = record { ident = fd; filter = filter } in
    change-keeps (disarm r) os os.changes

pub stream_stored :
    (fd : ℕ) (c : ClientSession) (s : Server)
    → (stream fd (store fd c s) ≡ wire_to fd s.os.wire ++ concat c.outbuf)
      × ((g : ℕ) → g ≢ fd → stream g (store fd c s) ≡ stream g s)
stream_stored fd c s = (
  ap (λ x. wire_to fd s.os.wire ++ pending_of x) (lookup-insert_self fd c s.sessions),
  λ g h. ap (λ x. wire_to g s.os.wire ++ pending_of x) (lookup-insert_ne fd g c s.sessions h),
)

pub wire_sent :
    (fd : ℕ) (run : SendRun) (s : Server)
    → (wire_to fd (sent_by fd run s).os.wire ≡ wire_to fd s.os.wire ++ run.taken)
      × ((g : ℕ) → g ≢ fd → stream g (sent_by fd run s) ≡ stream g s)
wire_sent fd run s = (
  wire_to_one fd fd s.os.wire run.taken ∙ ground arith,
  λ g h.
      ap (λ w. w ++ pending_of (Assoc.lookup g s.sessions))
        (wire_to_one fd g s.os.wire run.taken ∙ ground (arith, append-nil (wire_to g s.os.wire))),
)

-- To arm an event changes no stream.
pub stream_armed :
    (fd g : ℕ) (filter : Filter) (s : Server)
    → wire_to g (with_os (kq_add fd filter) s).os.wire ≡ wire_to g s.os.wire
stream_armed fd g filter s = ap (wire_to g) (kq_add-keeps fd filter s.os).0

pub queue_rest_streams :
    (fd : ℕ) (c : ClientSession) (rest : Bytes) (s : Server)
    → (stream fd (queue_rest fd c rest s) ≡ wire_to fd s.os.wire ++ concat (c.outbuf ++ rest ∷ []))
      × ((g : ℕ) → g ≢ fd → stream g (queue_rest fd c rest s) ≡ stream g s)
      × ((queue_rest fd c rest s).os.sends ≡ s.os.sends)
queue_rest_streams fd c rest s = elim (Bool-cases c.want_write) [
  | inl e ↦ rw e ((stream_stored fd c' s).0, (stream_stored fd c' s).1, refl)
  | inr e ↦
      let t = with_os (kq_add c.fd writes) s in
      rw e (
        (stream_stored fd c' t).0 ∙ ap (λ w. w ++ concat c'.outbuf) (stream_armed c.fd fd writes s),
        λ g h.
            (stream_stored fd c' t).1 g h
            ∙ ap (λ w. w ++ pending_of (Assoc.lookup g s.sessions)) (stream_armed c.fd g writes s),
        (kq_add-keeps c.fd writes s.os).1,
      )
]
  where
    c' : ClientSession
    c' = record c { outbuf = c.outbuf ++ rest ∷ []; want_write = true }
