-- ===== src/Cache/Steps/Sparing.antt =====
-- The shared steps of the handlers, as actions that spare the waiting reads and the read ports.
use arishem.Base.{ℕ, List, [], ◌∷◌, Run, ok, abort, arith}
use arishem.Packet.{Packet}
use arishem.Cache.State.{Block, Cache, Upcall}
use arishem.Cache.Lookup.{check_hit, fill_cache, filled_cache}
use arishem.Cache.Prefetches.{prefetch_line}
use arishem.Cache.World.{Prefetch, Advice, Sent, Neighbours}
use arishem.Cache.World.Action.{attempt}
use arishem.Cache.World.Keeps.{Keeps, Keeps-attempt, Keeps-bind, Keeps-if, Keeps-call, keeps_rules}
use arishem.Cache.Steps.{
  look_up, fill_block, take_answer, Which, with_entry, count_stall, return_up, return_all, send_up,
  prefetch_all, advised, prefetcher_operate, prefetcher_cache_fill, prefetcher_prefetch_hit,
  take_answers, send_down, lower_full, note_miss, choose_victim, replacement_update, write_back,
  write_back_or_stall, drop_dirty, evict,
}
use arishem.Cache.Steps.Spared.{
  Spares, Spares-IsPreorder, with_entry-Spares, misses-Spares, writes-Spares, prefetches-Spares,
  processed_with-Spares, update_replacement_state-Spares, return_data-Spares, add_mshr-Spares,
  prefetch_line-Spares,
}

module _ {E : Type 0} (n : Neighbours E) (i : ℕ) where
  pub return_up-Keeps : (cpu : ℕ) (p : Packet) → Keeps (Spares i) (return_up n cpu p)
  unfolding return_up
  return_up-Keeps cpu p = search (keeps_rules, Spares-IsPreorder)

  pub return_all-Keeps : (us : List Upcall) → Keeps (Spares i) (return_all n us)
  unfolding return_all
  return_all-Keeps [] = search (keeps_rules, Spares-IsPreorder)
  return_all-Keeps (u ∷ us) =
      Keeps-bind _ _ (Spares-IsPreorder i) (search (keeps_rules, Spares-IsPreorder))
        (λ a. return_all-Keeps us)

  pub send_up-Keeps : (which : Which) (k cpu : ℕ) → Keeps (Spares i) (send_up n which k cpu)
  unfolding send_up
  send_up-Keeps which k cpu = search (keeps_rules, Spares-IsPreorder, return_up-Keeps)

  one_prefetch-Keeps :
      (p : Prefetch)
      → Keeps (Spares i) (
          attempt {E = E} λ c.
            elim (prefetch_line n.uninit n.clock c p.ip p.base_addr p.pf_addr p.pf_fill_level
              p.prefetch_metadata) [ ok (_, c', us) ↦ ok (c', us) | abort ↦ abort ])
  one_prefetch-Keeps p = Keeps-attempt _ (λ c. ground (
    arith,
    prefetch_line-Spares i n.uninit n.clock c p.ip p.base_addr p.pf_addr p.prefetch_metadata
        p.pf_fill_level,
  ))

  pub prefetch_all-Keeps : (ps : List Prefetch) → Keeps (Spares i) (prefetch_all n ps)
  unfolding prefetch_all
  prefetch_all-Keeps [] = search (keeps_rules, Spares-IsPreorder)
  prefetch_all-Keeps (p ∷ ps) =
      let rest = prefetch_all-Keeps ps in
      let first = one_prefetch-Keeps p in
      Keeps-bind _ _ (Spares-IsPreorder i) first
        (λ calls. Keeps-bind _ _ (Spares-IsPreorder i) (return_all-Keeps calls) (λ _. rest))

  pub advised-Keeps : (f : E → Cache → Run (Advice E)) → Keeps (Spares i) (advised n f)
  unfolding advised
  advised-Keeps f = search (keeps_rules, Spares-IsPreorder, prefetch_all-Keeps)

  pub prefetcher_operate-Keeps : (a b c d e : ℕ) → Keeps (Spares i) (prefetcher_operate n a b c d e)
  unfolding prefetcher_operate
  prefetcher_operate-Keeps a b c d e = advised-Keeps _

  pub prefetcher_cache_fill-Keeps :
      (a b c d e f : ℕ) → Keeps (Spares i) (prefetcher_cache_fill n a b c d e f)
  unfolding prefetcher_cache_fill
  prefetcher_cache_fill-Keeps a b c d e f = advised-Keeps _

  pub prefetcher_prefetch_hit-Keeps :
      (a b c : ℕ) → Keeps (Spares i) (prefetcher_prefetch_hit n a b c)
  unfolding prefetcher_prefetch_hit
  prefetcher_prefetch_hit-Keeps a b c = advised-Keeps _

  pub look_up-Keeps : (p : Packet) → Keeps (Spares i) (look_up n p)
  unfolding look_up check_hit
  look_up-Keeps p = Keeps-attempt _ (λ c. ground arith)

  pub fill_block-Keeps : (index way : ℕ) (p : Packet) → Keeps (Spares i) (fill_block n index way p)
  unfolding fill_block fill_cache filled_cache
  fill_block-Keeps index way p = Keeps-attempt _ (λ c. ground arith)

  pub take_answer-Keeps : (p : Packet) → Keeps (Spares i) (take_answer n p)
  unfolding take_answer
  take_answer-Keeps p = Keeps-attempt _ (λ c. ground (arith, return_data-Spares i n.clock c p))

  pub take_answers-Keeps : (ps : List Packet) → Keeps (Spares i) (take_answers n ps)
  unfolding take_answers
  take_answers-Keeps [] = search (keeps_rules, Spares-IsPreorder)
  take_answers-Keeps (p ∷ ps) =
      let rest = take_answers-Keeps ps in
      Keeps-bind _ _ (Spares-IsPreorder i) (take_answer-Keeps p) (λ _. rest)

  -- A write to the place of the packet spares the reads.
  module _ (which : Which) (k : ℕ)
      (written : (c : Cache) (p : Packet) → Spares i c (with_entry which k p c)) where
    pub send_down-Keeps : (f : E → Packet → Run (Sent E)) → Keeps (Spares i) (send_down n f which k)
    unfolding send_down
    send_down-Keeps f = search (keeps_rules, Spares-IsPreorder, take_answers-Keeps, written) depth 8

    pub note_miss-Keeps : Keeps (Spares i) (note_miss n which k)
    unfolding note_miss
    note_miss-Keeps = search (keeps_rules, Spares-IsPreorder, add_mshr-Spares, written) depth 8

  pub lower_full-Keeps : (k address : ℕ) → Keeps (Spares i) (lower_full n k address)
  unfolding lower_full
  lower_full-Keeps k address = search (keeps_rules, Spares-IsPreorder)

  pub choose_victim-Keeps :
      (cpu index : ℕ) (p : Packet) → Keeps (Spares i) (choose_victim n cpu index p)
  unfolding choose_victim
  choose_victim-Keeps cpu index p =
      Keeps-bind _ _ (Spares-IsPreorder i) (search (keeps_rules, Spares-IsPreorder)) λ last.
        Keeps-if last _ _ (Keeps-call (Spares-IsPreorder i) _)
          (Keeps-attempt _ λ c. ground (arith, (Spares-IsPreorder i).same c))

  pub replacement_update-Keeps :
      (a b c d e f g h : ℕ) → Keeps (Spares i) (replacement_update n a b c d e f g h)
  unfolding replacement_update
  replacement_update-Keeps a b c d e f g h =
      search (keeps_rules, Spares-IsPreorder, update_replacement_state-Spares)

  pub write_back-Keeps : (p : Packet) → Keeps (Spares i) (write_back n p)
  unfolding write_back
  write_back-Keeps p = search (keeps_rules, Spares-IsPreorder, take_answers-Keeps)

  pub write_back_or_stall-Keeps :
      (cpu instr_id type : ℕ) (b : Block)
      → Keeps (Spares i) (write_back_or_stall n cpu instr_id type b)
  unfolding write_back_or_stall count_stall
  write_back_or_stall-Keeps cpu instr_id type b =
      search (keeps_rules, Spares-IsPreorder, lower_full-Keeps, write_back-Keeps) depth 8

  pub evict-Keeps :
      (cpu index way instr_id type : ℕ) → Keeps (Spares i) (evict n cpu index way instr_id type)
  unfolding evict drop_dirty
  evict-Keeps cpu index way instr_id type =
      search (keeps_rules, Spares-IsPreorder, write_back_or_stall-Keeps) depth 8

pub ruleset sparing = (
  Spares-IsPreorder, processed_with-Spares, misses-Spares, writes-Spares, prefetches-Spares,
  return_up-Keeps, send_up-Keeps, prefetcher_operate-Keeps, prefetcher_cache_fill-Keeps,
  prefetcher_prefetch_hit-Keeps, look_up-Keeps, fill_block-Keeps, take_answer-Keeps,
  send_down-Keeps, note_miss-Keeps, lower_full-Keeps, choose_victim-Keeps, replacement_update-Keeps,
  evict-Keeps,
)
