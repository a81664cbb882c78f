-- ===== src/Audit/Sound.antt =====
-- What an audit report vouches for: the selected contract, its venue times, and its frames.
use mathlib.Core.Path.{subst}
use flop_contributions.Prelude.{◌≡◌, refl, some, List, [], ◌++◌}
use flop_contributions.Outcome.{ok-injective, some-or_raise, ok, or_raise, >>=-eq-ok, guard-eq-ok}
use flop_contributions.Text.{Str, codes, eq_str}
use flop_contributions.Text.Laws.{eq_str→≡}
use flop_contributions.Json.{Value, Fields, obj}
use flop_contributions.Platform.{Platform, File, redacted_hash}
use flop_contributions.Tclk.Transcript.{value_at}
use flop_contributions.Audit.Export.{Capture, load_export}
use flop_contributions.Audit.Chosen.{audit_history, Chosen}
use flop_contributions.Audit.Tracks.{nothing_seen-Tracks}
use flop_contributions.Audit.Timed.{audit_records-Tracks}
use flop_contributions.Audit.Named.{Chosen-contract}
use flop_contributions.Text.Membership.{Distinct}
use flop_contributions.Audit.Replays.{frame_texts, Adds-both, audit_records-Adds}
use flop_contributions.Audit.Room.{
  board, deal, Selected, audit_records, nothing_seen, deal_room, AuditReport, bind_captures,
  hex_target, capture_fields, audit,
}

-- The run behind an audit report.
pub record IsAudit (p : Platform) (board_file deal_file : File) (capture contract : Value)
    (r : AuditReport) : Type 0 where
  pub target : Str
  pub is_target : hex_target contract ≡ some target
  pub captures : Fields
  pub is_capture : capture_fields capture ≡ some captures
  pub on_board : Capture × List Fields
  pub board_loaded : load_export p board_file (value_at "board" captures) ≡ ok on_board
  pub on_deal : Capture × List Fields
  pub deal_loaded : load_export p deal_file (value_at "deal" captures) ≡ ok on_deal
  pub board_room : on_board.0.room ≡ codes "tclk-offers"
  pub derived_room : on_deal.0.room ≡ deal_room target
  pub once : Distinct (frame_texts on_board.1 ++ frame_texts on_deal.1)
  pub final : Selected
  pub chosen :
      Chosen p target (audit_history p (audit_history p [] on_board.1) on_deal.1) (some final)
  pub named : final.contract.contract ≡ some target
  pub status : r.status ≡ final.contract.status
  pub hashed : redacted_hash p target ≡ ok r.contract_sha256

-- A report is returned only for exports that match their captures, of the offer board and of the deal
-- room derived from the target, in which no frame text stands twice; the reported status is that of the
-- contract with the target's id that the frames of their signed records select: an acceptance naming the
-- target, of an offer that an earlier frame made, at no later time, and that was not accepted yet, and then
-- every other frame, which has to name the target and to have no earlier time, each permitted by the
-- rules of the protocol.
pub audit-IsAudit :
    (p : Platform) (board_file deal_file : File) (capture contract : Value) (r : AuditReport)
    → audit p board_file deal_file capture contract ≡ ok r
    → IsAudit p board_file deal_file capture contract r
unfolding audit
audit-IsAudit p board_file deal_file capture contract r e =
    let (target, e₀, e₁) = >>=-eq-ok (or_raise (hex_target contract) _) _ e in
    let (captures, f₀, e₂) = >>=-eq-ok (or_raise (capture_fields capture) _) _ e₁ in
    let (on_board, b₀, e₃) =
      >>=-eq-ok (load_export p board_file (value_at "board" captures)) _ e₂ in
    let (on_deal, d₀, e₄) = >>=-eq-ok (load_export p deal_file (value_at "deal" captures)) _ e₃ in
    let (room₁, e₅) = guard-eq-ok (eq_str on_board.0.room (codes "tclk-offers")) _ _ e₄ in
    let (room₂, e₆) = guard-eq-ok (eq_str on_deal.0.room (deal_room target)) _ _ e₅ in
    let (halfway, s₁, e₇) = >>=-eq-ok (audit_records p target board nothing_seen on_board.1) _ e₆ in
    let (last, s₂, e₈) = >>=-eq-ok (audit_records p target deal halfway on_deal.1) _ e₇ in
    let (final, g₀, e₉) = >>=-eq-ok (or_raise last.selected _) _ e₈ in
    let (bound, k₀, k₁) = >>=-eq-ok (bind_captures p captures) _ e₉ in
    let (hash, k₂, k₃) = >>=-eq-ok (redacted_hash p target) _ k₁ in
    let (hash', k₄, k₅) = >>=-eq-ok (redacted_hash p (p.dumps (obj bound))) _ k₃ in
    let (halfway_chosen, halfway_offers) =
      audit_records-Tracks p target board [] nothing_seen halfway on_board.1
        (nothing_seen-Tracks p target) s₁ in
    let (chosen, offers) =
      audit_records-Tracks p target deal (audit_history p [] on_board.1) halfway last on_deal.1
        (halfway_chosen, halfway_offers) s₂ in
    let final_chosen =
      subst (Chosen p target (audit_history p (audit_history p [] on_board.1) on_deal.1))
        (some-or_raise _ _ g₀) chosen in
    subst (IsAudit p board_file deal_file capture contract) (ok-injective k₅) (record {
      target = target;
      is_target = some-or_raise _ _ e₀;
      captures = captures;
      is_capture = some-or_raise _ _ f₀;
      on_board = on_board;
      board_loaded = b₀;
      on_deal = on_deal;
      deal_loaded = d₀;
      board_room = eq_str→≡ _ _ room₁;
      derived_room = eq_str→≡ _ _ room₂;
      once =
          Adds-both halfway.seen last.seen (frame_texts on_board.1) (frame_texts on_deal.1)
            (audit_records-Adds p target board nothing_seen halfway on_board.1 s₁)
            (audit_records-Adds p target deal halfway last on_deal.1 s₂);
      final = final;
      chosen = final_chosen;
      named =
          Chosen-contract p target (audit_history p (audit_history p [] on_board.1) on_deal.1) final
            final_chosen;
      status = refl;
      hashed = k₂;
    })
