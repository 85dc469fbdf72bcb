-- ===== src/Flow/Line/Rounds.antt =====
-- One round of the loop of `read_bounded_line`, by the branch that it takes.
use acp_hub.Base.{ℕ, ◌+◌, ◌≡◌, Bool, true, false, List, ◌∷◌, ◌++◌, some, none, ltb, length}
use acp_hub.Flow.Json.{Bytes}
use acp_hub.Flow.Budget.{ok, err, FlowError}
use acp_hub.Flow.Partial.{Reserved, add, drop}
use acp_hub.Flow.Line.{
  Fill, filled, too_large, over_budget, split_newline, put_back, finish, read_loop,
  max_acp_frame_bytes,
}

module _ {RequestId : Type 0} (valid_utf8 : Bytes → Bool) (bytes : Bytes) (r : Reserved RequestId)
    (c : ℕ) (cs : Bytes) (reader : List Fill) where
  module _ {before after : Bytes} (e : split_newline (c ∷ cs) ≡ some (before, after)) where
    pub last_round-too_large :
        ltb max_acp_frame_bytes (length bytes + length before + 1) ≡ true
        → read_loop valid_utf8 bytes r (filled (c ∷ cs) ∷ reader)
          ≡ (too_large, filled (c ∷ cs) ∷ reader, drop r)
    unfolding read_loop
    last_round-too_large over = rw (e, over, read_loop)

    pub last_round-over_budget :
        {r' : Reserved RequestId} {f : FlowError}
        → ltb max_acp_frame_bytes (length bytes + length before + 1) ≡ false
        → add (length before + 1) r ≡ (r', err f)
        → read_loop valid_utf8 bytes r (filled (c ∷ cs) ∷ reader)
          ≡ (over_budget f, filled (c ∷ cs) ∷ reader, drop r')
    unfolding read_loop
    last_round-over_budget fits full = rw (e, fits, full, read_loop) (rw full)

    pub last_round :
        {r' : Reserved RequestId}
        → ltb max_acp_frame_bytes (length bytes + length before + 1) ≡ false
        → add (length before + 1) r ≡ (r', ok tt)
        → read_loop valid_utf8 bytes r (filled (c ∷ cs) ∷ reader)
          ≡ finish valid_utf8 (bytes ++ before) (put_back after reader) r'
    unfolding read_loop
    last_round fits room = rw (e, fits, room, read_loop) (rw room)

  module _ (e : split_newline (c ∷ cs) ≡ none) where
    pub round-too_large :
        ltb max_acp_frame_bytes (length bytes + length (c ∷ cs)) ≡ true
        → read_loop valid_utf8 bytes r (filled (c ∷ cs) ∷ reader)
          ≡ (too_large, filled (c ∷ cs) ∷ reader, drop r)
    unfolding read_loop
    round-too_large over = rw (e, over, read_loop)

    pub round-over_budget :
        {r' : Reserved RequestId} {f : FlowError}
        → ltb max_acp_frame_bytes (length bytes + length (c ∷ cs)) ≡ false
        → add (length (c ∷ cs)) r ≡ (r', err f)
        → read_loop valid_utf8 bytes r (filled (c ∷ cs) ∷ reader)
          ≡ (over_budget f, filled (c ∷ cs) ∷ reader, drop r')
    unfolding read_loop
    round-over_budget fits full = rw (e, fits, full, read_loop) (rw full)

    pub round :
        {r' : Reserved RequestId}
        → ltb max_acp_frame_bytes (length bytes + length (c ∷ cs)) ≡ false
        → add (length (c ∷ cs)) r ≡ (r', ok tt)
        → read_loop valid_utf8 bytes r (filled (c ∷ cs) ∷ reader)
          ≡ read_loop valid_utf8 (bytes ++ (c ∷ cs)) r' reader
    unfolding read_loop
    round fits room = rw (e, fits, room, read_loop) (rw room)
