-- ===== src/Scst/Suggestion.antt =====
-- The number that `suggestNextLunId` of utils/scst-lun-validation.ts proposes for a new LUN.
use esos_webui.Common.{List, [], any, arith, false, refl, suc, ℕ, ◌<◌, ◌∷◌, ◌≡◌}
use esos_webui.Scst.Types.{Lun}
use esos_webui.Scst.Luns.{has_id, max_id, suggest_next_lun_id}

above_max_id : (luns : List Lun) (n : ℕ) → max_id luns < n → any (has_id n) luns ≡ false
unfolding max_id any
above_max_id [] n above = refl
above_max_id (l ∷ ls) n above = ground (arith, above_max_id ls n)

-- The number that is proposed for a new LUN of a group is the number of no LUN of the group.
pub suggest_next_lun_id_free :
    (luns : List Lun) → any (has_id (suggest_next_lun_id luns)) luns ≡ false
unfolding suggest_next_lun_id any
suggest_next_lun_id_free [] = refl
suggest_next_lun_id_free (l ∷ ls) = above_max_id (l ∷ ls) (suc (max_id (l ∷ ls))) (omega arith)
