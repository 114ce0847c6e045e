-- ===== src/PacketQueue/Tidy.antt =====
-- What a cache keeps of its queues beside their shape: the places that wait for no packet are
-- empty (address 0), and no two waiting packets have one line.
use mathlib.Core.List.{map-append}
use mathlib.Core.Option
use mathlib.Core.Path.{subst, ap₂}
use arishem.Base.{
  ℕ, zero, suc, ◌+◌, ◌≤◌, ◌<◌, ◌≡◌, ◌≢◌, refl, ap, ◌∙◌, sym, List, [], ◌∷◌, map, arith, ◌==◌,
  length, set, All, length-set, get_or-set_self, get_or-set_ne, replicate, length-replicate, ◌^◌,
  inl, inr, Bool-cases, none, Option, some, inc32, dec32, IsDistinct, IsDistinct-snoc,
}
use Prim.Native.String.{String}
use arishem.Packet.{Packet, Uninit, new_packet, packet_at, no_packet}
use arishem.PacketQueue.{
  PacketQueue, new_queue, line_of, same_line, check_queue, append_entry, remove_entry, advance,
}
use arishem.PacketQueue.Window.{wrap, window}
use arishem.PacketQueue.Refine.{
  IsRing, IsValid, contents, new_queue-IsValid, append_entry-IsValid, contents-append_entry,
  remove_entry-IsValid, contents-remove_entry,
}
use arishem.PacketQueue.Find.{find_index, check_queue-find_index}

-- The lines of the waiting packets, oldest first.
abbrev pub lines : PacketQueue → List ℕ
lines q = map (line_of q.name) (contents q)

pub record IsTidyRing (name : String) (size : ℕ) (entry : List Packet) (head tail occupancy : ℕ)
    : Type 0 where
  pub ring : IsRing size entry head tail occupancy
  pub empty_rest :
      (k : ℕ) → occupancy ≤ k → k < size → (packet_at entry (wrap size (head + k))).address ≡ 0
  pub distinct : IsDistinct (map (line_of name) (window no_packet size entry head occupancy))

abbrev pub IsTidy : PacketQueue → Type 0
IsTidy q = IsTidyRing q.name q.size q.entry q.head q.tail q.occupancy

map-eq-none : (f : ℕ → ℕ) (o : Option ℕ) → Option.map f o ≡ none → o ≡ none
map-eq-none f none h = refl
map-eq-none f (some k) h = absurd (cc)

-- No waiting packet has the line of a packet for which `check_queue` finds none.
not_found :
    (name : String) (p : Packet) (es : List Packet)
    → find_index (same_line name p) es ≡ none
    → All (λ y. y ≢ line_of name p) (map (line_of name) es)
unfolding find_index same_line
not_found name p [] h = tt
not_found name p (e ∷ es) h = elim (Bool-cases (line_of name e == line_of name p)) [
  | inl y ↦ absurd (cc (rw y at h))
  | inr z ↦ (
    ground arith,
    not_found name p es (map-eq-none suc (find_index (same_line name p) es) (rw z at h)),
  )
]

pub absent_of_check_queue :
    (q : PacketQueue) (p : Packet)
    → IsValid q
    → check_queue q p ≡ none
    → All (λ y. y ≢ line_of q.name p) (lines q)
absent_of_check_queue q p v h =
    let e = sym (check_queue-find_index q p v) ∙ h in
    not_found q.name p (contents q)
      (map-eq-none (λ k. wrap q.size (q.head + k)) (find_index (same_line q.name p) (contents q)) e)

-- Appending a packet whose line no waiting packet has, to a queue with room.
pub append_entry-IsTidy :
    (q : PacketQueue) (p p' : Packet)
    → IsTidy q
    → q.occupancy < q.size
    → check_queue q p ≡ none
    → line_of q.name p' ≡ line_of q.name p
    → IsTidy (append_entry q p')
unfolding append_entry
append_entry-IsTidy q p p' t room absent same = record {
  ring = append_entry-IsValid q p' t.ring room;
  empty_rest = rest;
  distinct = lines_distinct;
}
  where
    rest :
        (k : ℕ)
        → inc32 q.occupancy ≤ k
        → k < q.size
        → (packet_at (set q.entry q.tail p') (wrap q.size (q.head + k))).address ≡ 0
    rest k lo hi =
        let v = t.ring in
        let ne : q.tail ≢ wrap q.size (q.head + k) = ground arith in
        let e = get_or-set_ne q.entry q.tail (wrap q.size (q.head + k)) p' no_packet ne in
        ap (λ (x : Packet). x.address) e ∙ t.empty_rest k (omega (arith, v.within, v.size_small)) hi

    lines_distinct : IsDistinct (map (line_of q.name) (contents (append_entry q p')))
    lines_distinct =
        rw (contents-append_entry q p' t.ring room, map-append)
          (IsDistinct-snoc (lines q) (line_of q.name p') t.distinct
            (rw same (absent_of_check_queue q p t.ring absent)))

-- A field of the packets after a write that keeps it.
pub field-set :
    (f : Packet → ℕ) (entry : List Packet) (i j : ℕ) (e' : Packet)
    → i < length entry
    → f e' ≡ f (packet_at entry i)
    → f (packet_at (set entry i e') j) ≡ f (packet_at entry j)
field-set f entry i j e' lt same = elim (Bool-cases (i == j)) [
  | inl y ↦
      let ij : i ≡ j = ground arith in
      subst (λ k. f (packet_at (set entry i e') k) ≡ f (packet_at entry k)) ij
        (ap f (get_or-set_self entry i e' no_packet lt) ∙ same)
  | inr z ↦ ap f (get_or-set_ne entry i j e' no_packet (ground arith))
]

map-window-set :
    (f : Packet → ℕ) (size : ℕ) (entry : List Packet) (h n i : ℕ) (e' : Packet)
    → i < length entry
    → f e' ≡ f (packet_at entry i)
    → map f (window no_packet size (set entry i e') h n) ≡ map f (window no_packet size entry h n)
map-window-set f size entry h zero i e' lt same = refl
map-window-set f size entry h (suc n) i e' lt same =
    ap₂ ◌∷◌ (field-set f entry i h e' lt same)
      (map-window-set f size entry (wrap size (h + 1)) n i e' lt same)

-- Writing a packet of the same line and address in place of a packet.
pub set-IsTidy :
    (name : String) (size : ℕ) (entry : List Packet) (head tail occupancy i : ℕ) (e' : Packet)
    → IsTidyRing name size entry head tail occupancy
    → i < size
    → e'.address ≡ (packet_at entry i).address
    → line_of name e' ≡ line_of name (packet_at entry i)
    → IsTidyRing name size (set entry i e') head tail occupancy
set-IsTidy name size entry head tail occupancy i e' t lt same_address same =
    let v = t.ring in
    let inside : i < length entry = omega (arith, v.places) in
    record {
      ring = record {
        places = length-set entry i e' ∙ v.places;
        size_pos = v.size_pos;
        size_small = v.size_small;
        head_in = v.head_in;
        tail_in = v.tail_in;
        within = v.within;
        tail_at = v.tail_at;
      };
      empty_rest = λ k lo hi.
          field-set (λ x. x.address) entry i (wrap size (head + k)) e' inside same_address
          ∙ t.empty_rest k lo hi;
      distinct =
          rw (map-window-set (line_of name) size entry head occupancy i e' inside same) t.distinct;
    }

-- Removing the oldest packet: its place is empty, and the others are as before.
pub remove_entry-IsTidy :
    (u : Uninit) (q : PacketQueue) → IsTidy q → 0 < q.occupancy → IsTidy (remove_entry u q q.head)
unfolding remove_entry
remove_entry-IsTidy u q t pos = record {
  ring = remove_entry-IsValid u q t.ring pos;
  empty_rest = rest;
  distinct =
      let e = ap (map (line_of q.name)) (contents-remove_entry u q t.ring pos) in
      (subst IsDistinct e t.distinct).1;
}
  where
    rest :
        (k : ℕ)
        → dec32 q.occupancy ≤ k
        → k < q.size
        → (packet_at
            (set q.entry q.head (new_packet u))
            (wrap q.size (advance q.size q.head + k))).address
          ≡ 0
    rest k lo hi =
        let v = t.ring in
        let inside : q.head < length q.entry = omega (arith, v.places, v.head_in) in
        elim (Bool-cases (suc k == q.size)) [
          | inl last ↦
              let e : wrap q.size (advance q.size q.head + k) ≡ q.head = ground arith in
              rw e (
                ap (λ (x : Packet). x.address)
                  (get_or-set_self q.entry q.head (new_packet u) no_packet inside))
          | inr more ↦
              let e : wrap q.size (advance q.size q.head + k) ≡ wrap q.size (q.head + suc k) =
                ground arith in
              let ne : q.head ≢ wrap q.size (q.head + suc k) = ground arith in
              rw e (
                ap (λ (x : Packet). x.address)
                  (get_or-set_ne q.entry q.head (wrap q.size (q.head + suc k)) (new_packet u)
                    no_packet ne)
                ∙ t.empty_rest (suc k) (omega (arith, v.within, v.size_small)) (ground arith))
        ]

pub new_queue-IsTidy :
    (u : Uninit) (name : String) (size : ℕ)
    → 0 < size
    → size < 2 ^ 31
    → IsTidy (new_queue u name size)
unfolding new_queue
new_queue-IsTidy u name size h small =
    let v = (new_queue-IsValid u name size h small).0 in
    record {
      ring = record {
        places = v.places;
        size_pos = v.size_pos;
        size_small = v.size_small;
        head_in = v.head_in;
        tail_in = v.tail_in;
        within = v.within;
        tail_at = v.tail_at;
      };
      empty_rest = λ k lo hi.
          let inside : wrap size (0 + k) < length (replicate size (new_packet u)) =
            let l = length-replicate size (new_packet u) in ground arith in
          ap (λ (x : Packet). x.address)
            (get_or_replicate_in size (wrap size (0 + k)) (new_packet u) no_packet inside);
      distinct = tt;
    }
  where
    get_or_replicate_in :
        (n i : ℕ) (a d : Packet) → i < length (replicate n a) → packet_at (replicate n a) i ≡ a
    get_or_replicate_in zero i a d h = absurd (omega arith)
    get_or_replicate_in (suc n) zero a d h = refl
    get_or_replicate_in (suc n) (suc i) a d h = get_or_replicate_in n i a d (omega arith)
