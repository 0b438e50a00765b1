-- ===== src/Reorder/Duration.antt =====
-- The frame durations that Interleave and SelectEvery of VapStd/reorderfilters.c change.
use cat_syn.Prelude.{◌&&◌, ◌==◌}
use cat_syn.Prelude.Int.{ℤ}
use cat_syn.Plugin.Types.{Frame}
use cat_syn.Plugin.VsMap.{prop_get_int, prop_set_int}
use cat_syn.Plugin.Rational.{muldiv_rational}
use cat_syn.Plugin.Action.{branch, need, pure, ◌>>=◌}
use cat_syn.Plugin.Fetch.{Fetch}

-- The copied frame with its duration, where it has one, `mul / div` of what it was.
unfoldable pub scale_duration : {F : Type 0} → ℤ → ℤ → Frame → Fetch F Frame
scale_duration mul div dst = do
  let (duration_num, err_num) = prop_get_int dst.props "_DurationNum" 0
  let (duration_den, err_den) = prop_get_int dst.props "_DurationDen" 0
  branch ((err_num == 0) && (err_den == 0))
      (do
        (num, den) ← need (muldiv_rational duration_num duration_den mul div)
        pure (record dst {
          props = prop_set_int (prop_set_int dst.props "_DurationNum" num) "_DurationDen" den;
        }))
      (pure dst)
