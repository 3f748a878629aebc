-- ===== src/Group/Exact/Connected.antt =====
-- The links that `Exact` makes connect two records exactly if a chain of shared identifiers does.
use siem_v.Prelude.{◌≡◌, refl, sym, ap, subst, ◌∙◌, ◌↔◌, List, [], ◌∷◌, ◌++◌, map, Memᴰ, inl, inr}
use mathlib.Core.List.Memᴰ.{append_left, append_right, append_cases}
use siem_v.Prelude.Text.{Str}
use siem_v.Keys.{Identifier, to_string}
use siem_v.Pipeline.{Record}
use siem_v.Group.UnionFind.{UnionFind, Call, add_call, link_call, step, run}
use siem_v.Group.UnionFind.Run.{Linked, linked, self, back, chain}
use siem_v.Group.Exact.{link_all, link_identifiers, link_records}

-- The identifiers of a record, in their text form.
abbrev pub texts : Record → List Str
texts r = map to_string r.identifiers

pub data Connected (records : List Record) : Record → Record → Type 0 where
  shared :
      {r s : Record} {x : Str}
      → Memᴰ r records
      → Memᴰ s records
      → Memᴰ x (texts r)
      → Memᴰ x (texts s)
      → Connected records r s
  joined : {r s t : Record} → Connected records r s → Connected records s t → Connected records r t

pub Connected-back :
    {records : List Record} {r s : Record} → Connected records r s → Connected records s r
Connected-back (shared a b x y) = shared b a y x
Connected-back (joined c d) = joined (Connected-back d) (Connected-back c)

-- The calls that the loops over the records make.
abbrev links : Str → List Identifier → List Call
links first [] = []
links first (id ∷ ids) = link_call first (to_string id) ∷ links first ids

abbrev pub identifier_calls : List Identifier → List Call
identifier_calls [] = []
identifier_calls (id ∷ ids) = add_call (to_string id) ∷ links (to_string id) ids

abbrev pub record_calls : List Record → List Call
record_calls [] = []
record_calls (r ∷ records) = identifier_calls r.identifiers ++ record_calls records

run-append : (a b : List Call) (u : UnionFind) → run (a ++ b) u ≡ run b (run a u)
unfolding run
run-append [] b u = refl
run-append (c ∷ a) b u = run-append a b (step c u)

run-links :
    (first : Str) (ids : List Identifier) (u : UnionFind)
    → run (links first ids) u ≡ link_all first ids u
unfolding run step link_all
run-links first [] u = refl
run-links first (id ∷ ids) u = run-links first ids (step (link_call first (to_string id)) u)

run-identifier_calls :
    (ids : List Identifier) (u : UnionFind) → run (identifier_calls ids) u ≡ link_identifiers ids u
unfolding run step link_identifiers
run-identifier_calls [] u = refl
run-identifier_calls (id ∷ ids) u = run-links (to_string id) ids (step (add_call (to_string id)) u)

pub run-record_calls :
    (records : List Record) (u : UnionFind) → run (record_calls records) u ≡ link_records records u
unfolding run link_records
run-record_calls [] u = refl
run-record_calls (r ∷ records) u =
    run-append (identifier_calls r.identifiers) (record_calls records) u
    ∙ ap (run (record_calls records)) (run-identifier_calls r.identifiers u)
    ∙ run-record_calls records (link_identifiers r.identifiers u)

abbrev pub first_of : List Identifier → Str
first_of [] = []
first_of (id ∷ ids) = to_string id

links-mem :
    (first : Str) (ids : List Identifier) {x : Str}
    → Memᴰ x (map to_string ids)
    → Memᴰ (link_call first x) (links first ids)
links-mem first [] m = elim m [ ]
links-mem first (id ∷ ids) (Memᴰ.head e) = Memᴰ.head (ap (link_call first) e)
links-mem first (id ∷ ids) (Memᴰ.tail m) = Memᴰ.tail (links-mem first ids m)

pub record_calls-mem :
    (records : List Record) {r : Record} {c : Call}
    → Memᴰ r records
    → Memᴰ c (identifier_calls r.identifiers)
    → Memᴰ c (record_calls records)
record_calls-mem [] m h = elim m [ ]
record_calls-mem (s ∷ records) {r} {c} (Memᴰ.head e) h =
    append_left (record_calls records) (subst (λ t. Memᴰ c (identifier_calls t.identifiers)) e h)
record_calls-mem (s ∷ records) (Memᴰ.tail m) h =
    append_right (identifier_calls s.identifiers) (record_calls-mem records m h)

-- A record links each identifier it carries to its first.
pub Linked-first :
    (records : List Record) {r : Record} {x : Str}
    → Memᴰ r records
    → Memᴰ x (texts r)
    → Linked (record_calls records) (first_of r.identifiers) x
Linked-first records {r} {x} m h = go r.identifiers (λ c k. record_calls-mem records m k) h
  where
    go :
        (ids : List Identifier)
        → ((c : Call) → Memᴰ c (identifier_calls ids) → Memᴰ c (record_calls records))
        → Memᴰ x (map to_string ids)
        → Linked (record_calls records) (first_of ids) x
    go [] f h = elim h [ ]
    go (id ∷ ids) f (Memᴰ.head e) =
        subst (Linked (record_calls records) (to_string id)) (sym e) (self (to_string id))
    go (id ∷ ids) f (Memᴰ.tail h) =
        linked (f (link_call (to_string id) x) (Memᴰ.tail (links-mem (to_string id) ids h)))

Linked-of_Connected :
    (records : List Record) {r s : Record}
    → Connected records r s
    → Linked (record_calls records) (first_of r.identifiers) (first_of s.identifiers)
Linked-of_Connected records (shared a b x y) =
    chain (Linked-first records a x) (back (Linked-first records b y))
Linked-of_Connected records (joined c d) =
    chain (Linked-of_Connected records c) (Linked-of_Connected records d)

-- A record that carries both identifiers of a call.
record Source (records : List Record) (x y : Str) : Type 0 where
  source : Record
  among : Memᴰ source records
  left : Memᴰ x (texts source)
  right : Memᴰ y (texts source)

links-source :
    (first : Str) (ids : List Identifier) {x y : Str}
    → Memᴰ (link_call x y) (links first ids)
    → (x ≡ first) × Memᴰ y (map to_string ids)
links-source first [] m = elim m [ ]
links-source first (id ∷ ids) {x} {y} (Memᴰ.head e) = (cc, Memᴰ.head cc)
links-source first (id ∷ ids) (Memᴰ.tail m) =
    let rest = links-source first ids m in (rest.0, Memᴰ.tail rest.1)

identifier_calls-source :
    (ids : List Identifier) {x y : Str}
    → Memᴰ (link_call x y) (identifier_calls ids)
    → Memᴰ x (map to_string ids) × Memᴰ y (map to_string ids)
identifier_calls-source [] m = elim m [ ]
identifier_calls-source (id ∷ ids) (Memᴰ.head e) = cc
identifier_calls-source (id ∷ ids) (Memᴰ.tail m) =
    let found = links-source (to_string id) ids m in (Memᴰ.head found.0, Memᴰ.tail found.1)

record_calls-Source :
    (records : List Record) {x y : Str}
    → Memᴰ (link_call x y) (record_calls records)
    → Source records x y
record_calls-Source [] m = elim m [ ]
record_calls-Source (r ∷ records) m = elim (append_cases (identifier_calls r.identifiers) m) [
  | inl here ↦
      let found = identifier_calls-source r.identifiers here in
      record { source = r; among = Memᴰ.head refl; left = found.0; right = found.1 }
  | inr later ↦
      let rest = record_calls-Source records later in
      record {
        source = rest.source;
        among = Memᴰ.tail rest.among;
        left = rest.left;
        right = rest.right;
      }
]

-- A record that carries the identifier and is connected to `r`.
record Meets (records : List Record) (r : Record) (x : Str) : Type 0 where
  other : Record
  among : Memᴰ other records
  carries : Memᴰ x (texts other)
  connected : Connected records r other

abbrev Leads : List Record → Str → Str → Type 0
Leads records x y = (r : Record) → Memᴰ r records → Memᴰ x (texts r) → Meets records r y

Leads-trans :
    (records : List Record) {x y z : Str}
    → Leads records x y
    → Leads records y z
    → Leads records x z
Leads-trans records f g r m c =
    let one = f r m c in
    let two = g one.other one.among one.carries in
    record {
      other = two.other;
      among = two.among;
      carries = two.carries;
      connected = joined one.connected two.connected;
    }

Leads-of_Linked :
    (records : List Record) {x y : Str}
    → Linked (record_calls records) x y
    → Leads records x y × Leads records y x
Leads-of_Linked records (linked m) =
    let s = record_calls-Source records m in
    (
      λ r a c. record {
        other = s.source;
        among = s.among;
        carries = s.right;
        connected = shared a s.among c s.left;
      },
      λ r a c. record {
        other = s.source;
        among = s.among;
        carries = s.left;
        connected = shared a s.among c s.right;
      },
    )
Leads-of_Linked records (self x) =
    let stay : Leads records x x =
      λ r a c. record { other = r; among = a; carries = c; connected = shared a a c c } in
    (stay, stay)
Leads-of_Linked records (back l) = let both = Leads-of_Linked records l in (both.1, both.0)
Leads-of_Linked records (chain l m) =
    let one = Leads-of_Linked records l in
    let two = Leads-of_Linked records m in
    (Leads-trans records one.0 two.0, Leads-trans records two.1 one.1)

-- Two records with identifiers: the links connect their first identifiers exactly if a chain of
-- shared identifiers connects the records.
pub Connected-Linked :
    (records : List Record) {r s : Record}
    → Memᴰ r records
    → Memᴰ s records
    → Memᴰ (first_of r.identifiers) (texts r)
    → Memᴰ (first_of s.identifiers) (texts s)
    → Linked (record_calls records) (first_of r.identifiers) (first_of s.identifiers)
      ↔ Connected records r s
Connected-Linked records {r} {s} a b x y = (
  λ l.
      let met = (Leads-of_Linked records l).0 r a x in
      joined met.connected (shared met.among b met.carries y),
  Linked-of_Connected records,
)

first-carried : (r : Record) {x : Str} → Memᴰ x (texts r) → Memᴰ (first_of r.identifiers) (texts r)
first-carried r m = go r.identifiers m
  where
    go :
        (ids : List Identifier) {x : Str}
        → Memᴰ x (map to_string ids)
        → Memᴰ (first_of ids) (map to_string ids)
    go [] m = elim m [ ]
    go (id ∷ ids) m = Memᴰ.head refl

pub Connected-carries :
    {records : List Record} {r s : Record}
    → Connected records r s
    → Memᴰ (first_of r.identifiers) (texts r) × Memᴰ (first_of s.identifiers) (texts s)
Connected-carries (shared {r} {s} a b x y) = (first-carried r x, first-carried s y)
Connected-carries (joined c d) = ((Connected-carries c).0, (Connected-carries d).1)
