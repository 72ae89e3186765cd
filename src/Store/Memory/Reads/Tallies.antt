-- ===== src/Store/Memory/Reads/Tallies.antt =====
-- What `tally` in store/memory.go counts.
use coinnews_indexer.Prelude.{
  ℕ, ◌+◌, ◌≡◌, ◌∙◌, [], ◌∷◌, ◌&&◌, ◌==◌, if◌then◌else◌, arith, bytes_beq,
}
use coinnews_indexer.Prelude.Int.{ℤ, pos, ◌+ℤ◌, ◌-ℤ◌}
use coinnews_indexer.Codec.Types.{Bytes}
use coinnews_indexer.GoMap.{GoMap}
use coinnews_indexer.Store.Types.{Vote, VoteKey}
use coinnews_indexer.Store.Memory.{MemoryStore}
use coinnews_indexer.Store.Memory.Reads.{tally, tally_loop}

-- How many votes of a kind stand under a target.
unfoldable pub votes_for : ℕ → Bytes → GoMap VoteKey Vote → ℕ
votes_for kind target [] = 0
votes_for kind target ((k, v) ∷ rest) =
    (if bytes_beq k.target target && (v.kind == kind) then 1 else 0) + votes_for kind target rest

tally_loop_lem :
    (votes : GoMap VoteKey Vote) (target : Bytes) (pts : ℤ)
    → tally_loop votes target pts
      ≡ pts +ℤ pos (votes_for 4 target votes) -ℤ pos (votes_for 5 target votes)
unfolding tally_loop votes_for ◌+ℤ◌ ◌-ℤ◌
tally_loop_lem [] target pts = ground arith
tally_loop_lem ((k, v) ∷ rest) target pts = tally_loop_lem rest target _ ∙ ground arith

-- The points of an item are the number of upvotes that stand under it less the number of downvotes.
pub tally_lem :
    (target : Bytes) (m : MemoryStore)
    → tally target m ≡ pos (votes_for 4 target m.votes) -ℤ pos (votes_for 5 target m.votes)
unfolding tally ◌+ℤ◌ ◌-ℤ◌
tally_lem target m = tally_loop_lem m.votes target (pos 0) ∙ ground arith
