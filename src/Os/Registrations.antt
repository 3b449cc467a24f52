-- ===== src/Os/Registrations.antt =====
-- Which events the kqueue reports, after each of its calls.
use the_socket_exchange.Common.{
  ℕ, List, [], ◌∷◌, Bool, true, false, ◌≡◌, ◌↔◌, refl, ap, ◌∙◌, arith, if◌then◌else◌, ◌==◌, nat_eq,
  nat_beq_iff, eq_self,
}
use the_socket_exchange.Os.{
  Os, Filter, reads, writes, Registration, same_filter, same_registration, disarm, change, kq_add,
  kq_del, close,
}

abbrev pub is_armed : Registration → List Registration → Bool
is_armed r [] = false
is_armed r (q ∷ qs) = if same_registration q r then true else is_armed r qs

abbrev pub event : ℕ → Filter → Registration
event fd filter = record { ident = fd; filter = filter }

-- Whether an event of a descriptor is reported.
abbrev pub watches : ℕ → Filter → Os → Bool
watches fd filter os = is_armed (event fd filter) os.armed

same_filter_iff : (f g : Filter) → (same_filter f g ≡ true) ↔ (f ≡ g)
same_filter_iff reads reads = (λ h. refl, λ h. refl)
same_filter_iff reads writes = (λ h. cc, λ h. cc)
same_filter_iff writes reads = (λ h. cc, λ h. cc)
same_filter_iff writes writes = (λ h. refl, λ h. refl)

is_armed-disarm :
    (q r : Registration) (qs : List Registration)
    → is_armed r (disarm q qs) ≡ (if same_registration q r then false else is_armed r qs)
unfolding disarm
is_armed-disarm q r [] = ground arith
is_armed-disarm q r (p ∷ qs) = ground (
  arith,
  is_armed-disarm q r qs,
  nat_beq_iff p.ident q.ident,
  nat_beq_iff q.ident r.ident,
  nat_beq_iff p.ident r.ident,
  same_filter_iff p.filter q.filter,
  same_filter_iff q.filter r.filter,
  same_filter_iff p.filter r.filter,
)

-- A call on the kqueue changes neither the connections that wait nor anything else that is not its own.
pub change-accepts :
    (f : List Registration → List Registration) (os : Os) (answers : List Bool)
    → (change f os answers).accepts ≡ os.accepts
change-accepts f os [] = refl
change-accepts f os (true ∷ rest) = refl
change-accepts f os (false ∷ rest) = refl

pub kq_add-accepts :
    (fd : ℕ) (filter : Filter) (os : Os) → (kq_add fd filter os).accepts ≡ os.accepts
unfolding kq_add
kq_add-accepts fd filter os =
    change-accepts (λ a. event fd filter ∷ disarm (event fd filter) a) os os.changes

pub kq_del-accepts :
    (fd : ℕ) (filter : Filter) (os : Os) → (kq_del fd filter os).accepts ≡ os.accepts
unfolding kq_del
kq_del-accepts fd filter os = change-accepts (disarm (event fd filter)) os os.changes

-- A kqueue whose changes all succeed.
abbrev pub IsSound : Os → Type 0
IsSound os = os.changes ≡ []

change-armed :
    (f : List Registration → List Registration) (os : Os) (answers : List Bool)
    → answers ≡ []
    → os.changes ≡ answers
    → ((change f os answers).armed ≡ f os.armed) × IsSound (change f os answers)
change-armed f os [] e k = (refl, k)
change-armed f os (a ∷ rest) e k = cc

pub kq_add-watches :
    (fd : ℕ) (filter : Filter) (os : Os)
    → IsSound os
    → ((g : ℕ) (other : Filter)
        → watches g other (kq_add fd filter os) ≡ (
            if same_registration (event fd filter) (event g other)
            then true
            else watches g other os))
      × IsSound (kq_add fd filter os)
unfolding kq_add
kq_add-watches fd filter os h =
    let (e, k) =
      change-armed (λ a. event fd filter ∷ disarm (event fd filter) a) os os.changes h refl in
    (
      λ g other.
          ap (is_armed (event g other)) e
          ∙ ground (arith, is_armed-disarm (event fd filter) (event g other) os.armed),
      k,
    )

pub kq_del-watches :
    (fd : ℕ) (filter : Filter) (os : Os)
    → IsSound os
    → ((g : ℕ) (other : Filter)
        → watches g other (kq_del fd filter os) ≡ (
            if same_registration (event fd filter) (event g other)
            then false
            else watches g other os))
      × IsSound (kq_del fd filter os)
unfolding kq_del
kq_del-watches fd filter os h =
    let (e, k) = change-armed (disarm (event fd filter)) os os.changes h refl in
    (
      λ g other.
          ap (is_armed (event g other)) e
          ∙ is_armed-disarm (event fd filter) (event g other) os.armed,
      k,
    )

-- A descriptor that is closed is not watched any more.
pub close-watches :
    (fd : ℕ) (os : Os) (g : ℕ) (other : Filter)
    → watches g other (close fd os) ≡ (if fd == g then false else watches g other os)
unfolding close
close-watches fd os g reads = ground (
  arith,
  nat_beq_iff fd g,
  is_armed-disarm (event fd reads) (event g reads) (disarm (event fd writes) os.armed),
  is_armed-disarm (event fd writes) (event g reads) os.armed,
)
close-watches fd os g writes = ground (
  arith,
  nat_beq_iff fd g,
  is_armed-disarm (event fd reads) (event g writes) (disarm (event fd writes) os.armed),
  is_armed-disarm (event fd writes) (event g writes) os.armed,
)

-- Nothing changes but for one descriptor.
abbrev pub IsElsewhere : ℕ → Os → Os → Type 0
IsElsewhere fd os os' = (g : ℕ) (f : Filter) → (fd == g) ≡ false → watches g f os' ≡ watches g f os

module _ (fd : ℕ) (os : Os) (h : IsSound os) where
  pub kq_add-IsElsewhere : (filter : Filter) → IsElsewhere fd os (kq_add fd filter os)
  kq_add-IsElsewhere filter g f apart = ground (arith, (kq_add-watches fd filter os h).0 g f)

  pub kq_del-IsElsewhere : (filter : Filter) → IsElsewhere fd os (kq_del fd filter os)
  kq_del-IsElsewhere filter g f apart = ground (arith, (kq_del-watches fd filter os h).0 g f)

  pub kq_add_self : (filter : Filter) → watches fd filter (kq_add fd filter os) ≡ true
  kq_add_self reads = ground (arith, eq_self fd, (kq_add-watches fd reads os h).0 fd reads)
  kq_add_self writes = ground (arith, eq_self fd, (kq_add-watches fd writes os h).0 fd writes)

  pub kq_add-writes_read : watches fd reads (kq_add fd writes os) ≡ watches fd reads os
  kq_add-writes_read = ground (arith, eq_self fd, (kq_add-watches fd writes os h).0 fd reads)

  pub kq_add-reads_write : watches fd writes (kq_add fd reads os) ≡ watches fd writes os
  kq_add-reads_write = ground (arith, eq_self fd, (kq_add-watches fd reads os h).0 fd writes)

  pub kq_del-writes_read : watches fd reads (kq_del fd writes os) ≡ watches fd reads os
  kq_del-writes_read = ground (arith, eq_self fd, (kq_del-watches fd writes os h).0 fd reads)

  pub kq_del_self : watches fd writes (kq_del fd writes os) ≡ false
  kq_del_self = ground (arith, eq_self fd, (kq_del-watches fd writes os h).0 fd writes)

pub close-IsSound : (fd : ℕ) (os : Os) → IsSound os → IsSound (close fd os)
unfolding close
close-IsSound fd os h = h
