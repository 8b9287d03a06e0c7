-- ===== src/Rebuild/Walk.antt =====
-- The walk over the range of a rebuild: `PeekableIterator`, `FullRebuild` and the range part of
-- `PartialSeqRebuild` of io-engine/src/rebuild/rebuilders.rs.
pub mod Tiling
pub mod Remaining
mod Tests
use mayastor.Common.{
  ℕ, zero, suc, ◌+◌, ◌-◌, max, Bool, true, false, Option, none, some, List, [], ◌∷◌, ltb, ◌==◌,
  if◌then◌else◌,
}
use mayastor.Rebuild.Descriptor.{RebuildDescriptor, Range, get_segment_size_blks}

-- `Range<u64>::step_by`: the standard library's iterator, as the place of its next item.
pub record StepBy : Type 0 where
  pub at : ℕ
  pub end : ℕ
  pub step : ℕ

unfoldable pub step_next : StepBy → StepBy × Option ℕ
step_next it =
    if ltb it.at it.end then (record it { at = it.at + it.step }, some it.at) else (it, none)

-- `step_by` panics (`none`) at a step of zero.
unfoldable pub step_by : Range → ℕ → Option StepBy
step_by r step =
    if step == 0 then none else some (record { at = r.start; end = r.end; step = step })

pub record PeekableIterator : Type 0 where
  pub iter : StepBy
  pub peek : Option ℕ

unfoldable pub peekable : StepBy → PeekableIterator
unfolding step_next
peekable it = let (it', p) = step_next it in record { iter = it'; peek = p }

-- `mem::replace`: the item that was looked at goes out, and the next one is fetched.
unfoldable pub peekable_next : PeekableIterator → PeekableIterator × Option ℕ
unfolding step_next
peekable_next p = let (it', q) = step_next p.iter in (record { iter = it'; peek = q }, p.peek)

pub record FullRebuild : Type 0 where
  pub walk : PeekableIterator
  pub desc : RebuildDescriptor

unfoldable pub full_rebuild : RebuildDescriptor → Option FullRebuild
unfolding step_by peekable
full_rebuild d = elim (step_by d.range d.segment_size_blks) [
  | none ↦ none
  | some it ↦ some (record { walk = peekable it; desc = d })
]

unfoldable pub next : FullRebuild → FullRebuild × Option ℕ
unfolding peekable_next
next r = let (w, blk) = peekable_next r.walk in (record r { walk = w }, blk)

unfoldable pub peek_next : FullRebuild → Option ℕ
peek_next r = r.walk.peek

remaining_from : ℕ → Option ℕ → ℕ
remaining_from end none = 0
remaining_from end (some r) = max end r - r

unfoldable pub blocks_remaining : FullRebuild → ℕ
unfolding remaining_from peek_next
blocks_remaining r = remaining_from r.desc.range.end (peek_next r)

-- The blocks that `next` gives out until it gives none, on fuel.
unfoldable pub drain : ℕ → FullRebuild → List ℕ
unfolding next
drain zero r = []
drain (suc fuel) r =
    let rest = drain fuel (next r).0 in elim (next r).1 [ none ↦ [] | some blk ↦ blk ∷ rest ]
