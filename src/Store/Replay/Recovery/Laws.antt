-- ===== src/Store/Replay/Recovery/Laws.antt =====
-- A recovery is the rollback that a crash prevented.
use acp_hub.Base.{
  ◌≡◌, refl, ap, sym, ◌∙◌, true, [], ◌∷◌, some, String, arith, ◌==◌, string_eq, ==_refl, get,
}
use acp_hub.Store.Replay.{
  RefreshRow, ReplayRefresh, BeforeImage, ReplayStore, ok, validate_load_replay_refresh,
  restore_load_replay_projection, delete_refresh, delete_captured, any_captured, advance_generation,
  rollback_load_replay,
}
use acp_hub.Store.Replay.Laws.{same-delete_refresh}
use acp_hub.Store.Replay.Recovery.{
  has_before_image, recover_one, recover_all, recover_interrupted_load_replays,
}

-- The handle of a stored refresh.
abbrev pub handle : String → RefreshRow → ReplayRefresh
handle conv r = record {
  conv_id = conv;
  load_id = r.load_id;
  starting_seq = r.starting_seq;
  generation_nonce = r.generation_nonce;
}

abbrev rolled : String → RefreshRow → ReplayStore → ReplayStore
rolled conv r s =
    advance_generation (any_captured conv r.starting_seq s) conv
      (restore_load_replay_projection conv r.load_id (delete_captured conv r.starting_seq s))

recover_one_lem :
    (conv : String) (r : RefreshRow) (s : ReplayStore) (b : BeforeImage)
    → get r.load_id s.before_images ≡ some b
    → (b.conv_id == conv) ≡ true
    → recover_one conv r s ≡ rolled conv r s
unfolding recover_one has_before_image
recover_one_lem conv r s b e f = ground (arith, e, f)

rollback_lem :
    (conv : String) (r : RefreshRow) (s : ReplayStore)
    → get conv s.refreshes ≡ some r
    → rollback_load_replay (handle conv r) s ≡ ok (delete_refresh conv r.load_id (rolled conv r s))
unfolding rollback_load_replay validate_load_replay_refresh
rollback_lem conv r s e =
    let a = ==_refl r.load_id in let b = ==_refl r.generation_nonce in ground (arith, e, a, b)

-- Where one load was interrupted, and it has its before image: the recovery leaves the conversations and the
-- messages that a rollback of the load would have left, and no refresh and no before image.
pub recover-rollback :
    (conv : String) (r : RefreshRow) (s : ReplayStore) (b : BeforeImage)
    → s.refreshes ≡ (conv, r) ∷ []
    → get r.load_id s.before_images ≡ some b
    → (b.conv_id == conv) ≡ true
    → (out : ReplayStore) × (rollback_load_replay (handle conv r) s ≡ ok out)
      × ((recover_interrupted_load_replays s).conversations ≡ out.conversations)
      × ((recover_interrupted_load_replays s).messages ≡ out.messages)
      × ((recover_interrupted_load_replays s).refreshes ≡ [])
      × ((recover_interrupted_load_replays s).before_images ≡ [])
unfolding recover_interrupted_load_replays recover_all
recover-rollback conv r s b only e f =
    let own = ==_refl conv in
    let there : get conv s.refreshes ≡ some r =
      ap (get conv) only ∙ (unfold get in ground (arith, own)) in
    let same = same-delete_refresh conv r.load_id (rolled conv r s) in
    let run : recover_all s.refreshes s ≡ rolled conv r s =
      ap (λ rs. recover_all rs s) only ∙ recover_one_lem conv r s b e f in
    (
      delete_refresh conv r.load_id (rolled conv r s),
      rollback_lem conv r s there,
      ap (λ u. u.conversations) run ∙ sym same.0,
      ap (λ u. u.messages) run ∙ sym same.1,
      refl,
      refl,
    )
