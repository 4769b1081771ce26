-- ===== src/Session/PacketIds.antt =====
-- `session::new_packet_id` (object/session.cpp): its loop ends, with an id that nobody waits on.
use shan_mqtt_broker.Base.{
  ℕ, zero, suc, ◌+◌, ◌-◌, ◌≤◌, ◌<◌, ◌≡◌, refl, sym, subst, ◌∙◌, true, false, ◌||◌, inl, inr, List,
  [], ◌∷◌, ◌++◌, length, elem, ◌==◌, leb, arith, Bool-cases, Option-cases, if◌then◌else◌, Option,
  none, some,
}
use shan_mqtt_broker.Outcome.{Result, ok, stuck}
use shan_mqtt_broker.Packet.Publish.{Publish}
use shan_mqtt_broker.Session.{
  Session, any_publish, is_used, candidate, increment, new_packet_id_loop, new_packet_id,
}

abbrev pub publish_ids : List Publish → List ℕ
publish_ids [] = []
publish_ids (p ∷ ps) = p.packet_id ∷ publish_ids ps

-- The ids of the exchanges that the server started and that wait for an answer.
abbrev pub ids_in_use : Session → List ℕ
ids_in_use s =
    publish_ids s.publish_for_ack ++ (publish_ids s.publish_for_rec ++ s.packet_id_for_pubcomp)

elem-append : (a : ℕ) (xs ys : List ℕ) → elem a (xs ++ ys) ≡ (elem a xs || elem a ys)
elem-append a [] ys = refl
elem-append a (x ∷ xs) ys = ground (arith, elem-append a xs ys)

elem-publish_ids : (a : ℕ) (ps : List Publish) → elem a (publish_ids ps) ≡ any_publish a ps
elem-publish_ids a [] = refl
elem-publish_ids a (p ∷ ps) = ground (arith, elem-publish_ids a ps)

pub elem-ids_in_use : (s : Session) (a : ℕ) → elem a (ids_in_use s) ≡ is_used s a
elem-ids_in_use s a = rw (
  elem-append a (publish_ids s.publish_for_ack),
  elem-append a (publish_ids s.publish_for_rec),
  elem-publish_ids a s.publish_for_ack,
  elem-publish_ids a s.publish_for_rec,
)

-- The ids go round from 1 to 65535.
abbrev after : ℕ → ℕ
after n = if n == 65535 then 1 else n + 1

-- The search through the ids from `n` on, for one that is not in the list.
search_id : ℕ → ℕ → List ℕ → Option ℕ
search_id zero n used = none
search_id (suc k) n used =
    let rest = search_id k (after n) used in if elem n used then rest else some n

remove_all : ℕ → List ℕ → List ℕ
remove_all n [] = []
remove_all n (x ∷ xs) = let rest = remove_all n xs in if x == n then rest else x ∷ rest

length-remove_all :
    (n : ℕ) (xs : List ℕ)
    → (length (remove_all n xs) ≤ length xs)
      × (elem n xs ≡ true → length (remove_all n xs) < length xs)
unfolding remove_all
length-remove_all n [] = (omega arith, λ e. cc)
length-remove_all n (x ∷ xs) =
    let (le, lt) = length-remove_all n xs in
    elim (Bool-cases (x == n)) [
      | inl e ↦ (ground arith, λ h. ground arith)
      | inr e ↦ (ground arith, λ h. ground (arith, lt (ground arith)))
    ]

elem-remove_all : (n m : ℕ) (xs : List ℕ) → (n ≡ m → ⊥) → elem m (remove_all n xs) ≡ elem m xs
unfolding remove_all
elem-remove_all n m [] h = refl
elem-remove_all n m (x ∷ xs) h = ground (arith, elem-remove_all n m xs h)

-- How many steps lead from `m` to `n`.
abbrev distance : ℕ → ℕ → ℕ
distance m n = if leb m n then n - m else n + 65535 - m

abbrev IsId : ℕ → Type 0
IsId n = (1 ≤ n) × (n ≤ 65535)

search-remove_all :
    (k m n : ℕ) (used : List ℕ)
    → IsId m
    → IsId n
    → k ≤ distance m n
    → search_id k m (remove_all n used) ≡ search_id k m used
unfolding search_id
search-remove_all zero m n used hm hn h = refl
search-remove_all (suc k) m n used hm hn h = ground (
  arith,
  elem-remove_all n m used (ground arith),
  search-remove_all k (after m) n used (ground arith) hn (ground arith),
)

-- The pigeonhole: a search that fails has met a different entry of the list in each round.
search_none :
    (k n : ℕ) (used : List ℕ) → IsId n → k ≤ 65535 → search_id k n used ≡ none → k ≤ length used
unfolding search_id
search_none zero n used hn hk e = omega arith
search_none (suc k) n used hn hk e = elim (Bool-cases (elem n used)) [
  | inl h ↦
      let fewer = (length-remove_all n used).1 h in
      let agree = search-remove_all k (after n) n used (ground arith) hn (ground arith) in
      omega (
        arith,
        search_none k (after n) (remove_all n used) (ground arith) (omega arith)
            (agree ∙ ground arith),
        fewer,
      )
  | inr h ↦ absurd (cc (rw h at e))
]

-- What the search finds is the first candidate that the loop returns.
abbrev Found : List ℕ → Option ℕ → Type 0
Found used none = Unit {0}
Found used (some id) = IsId id × (elem id used ≡ false)

search-Found : (k n : ℕ) (used : List ℕ) → IsId n → Found used (search_id k n used)
unfolding search_id
search-Found zero n used hn = tt
search-Found (suc k) n used hn = elim (Bool-cases (elem n used)) [
  | inl h ↦ rw h (search-Found k (after n) used (ground arith))
  | inr h ↦ rw h (hn, h)
]

abbrev returns : Session → Option ℕ → Result (ℕ × Session)
returns s none = stuck
returns s (some id) = ok (id, record s { next_packet_id = increment id })

candidate_next :
    (n : ℕ)
    → n ≤ 65535
    → IsId (candidate n).0
      × ((candidate n).1 ≡ increment (candidate n).0)
      × ((candidate n).1 ≤ 65535)
      × ((candidate (candidate n).1).0 ≡ after (candidate n).0)
candidate_next n h = ground arith

returns-next :
    (s : Session) (n : ℕ) (o : Option ℕ) → returns (record s { next_packet_id = n }) o ≡ returns s o
returns-next s n none = refl
returns-next s n (some id) = refl

loop-search :
    (k : ℕ) (s : Session)
    → s.next_packet_id ≤ 65535
    → new_packet_id_loop k s ≡ returns s (search_id k (candidate s.next_packet_id).0 (ids_in_use s))
unfolding new_packet_id_loop search_id
loop-search zero s h = refl
loop-search (suc k) s h =
    let next = candidate s.next_packet_id in
    let (hid, step, le, onward) = candidate_next s.next_packet_id h in
    elim (Bool-cases (is_used s next.0)) [
      | inl u ↦
          rw (u, elem-ids_in_use s next.0, u, ← onward)
            (loop-search k (record s { next_packet_id = next.1 }) le ∙ returns-next s next.1 _)
      | inr u ↦ rw (u, elem-ids_in_use s next.0, u, step) refl
    ]

-- From a 16-bit counter, and with fewer than 65535 exchanges waiting, `new_packet_id` returns: the id
-- is not 0, fits 16 bits and belongs to no waiting exchange, and only the counter changes.
pub new_packet_id_fresh :
    (s : Session)
    → s.next_packet_id ≤ 65535
    → length (ids_in_use s) < 65535
    → (id : ℕ) × (new_packet_id s ≡ ok (id, record s { next_packet_id = increment id }))
      × (1 ≤ id)
      × (id ≤ 65535)
      × (is_used s id ≡ false)
unfolding new_packet_id
new_packet_id_fresh s h few =
    let first = (candidate s.next_packet_id).0 in
    let hid = (candidate_next s.next_packet_id h).0 in
    elim (Option-cases (search_id 65535 first (ids_in_use s))) [
      | inl e ↦ absurd (omega (arith, search_none 65535 first (ids_in_use s) hid (omega arith) e))
      | inr (id, e) ↦
          let found : IsId id × (elem id (ids_in_use s) ≡ false) =
            subst (Found (ids_in_use s)) e (search-Found 65535 first (ids_in_use s) hid) in
          (
            id,
            loop-search 65535 s h ∙ rw e,
            found.0.0,
            found.0.1,
            sym (elem-ids_in_use s id) ∙ found.1,
          )
    ]

-- While each of the 65535 ids belongs to a waiting exchange the loop of `new_packet_id` goes on: no
-- number of rounds lets it return.
pub new_packet_id_waits :
    (s : Session) (rounds : ℕ)
    → s.next_packet_id ≤ 65535
    → ((id : ℕ) → 1 ≤ id → id ≤ 65535 → is_used s id ≡ true)
    → new_packet_id_loop rounds s ≡ stuck
unfolding new_packet_id_loop
new_packet_id_waits s zero h all = refl
new_packet_id_waits s (suc rounds) h all =
    let next = candidate s.next_packet_id in
    let (hid, step, le, onward) = candidate_next s.next_packet_id h in
    rw (all next.0 hid.0 hid.1)
      (new_packet_id_waits (record s { next_packet_id = next.1 }) rounds le all)
