-- ===== src/Proxies/AdaptiveConfig.antt =====
-- src/bulk_http/proxies/adaptive.py: the tuning of the adaptive limiter, and its checks.
use bulk_http.Prelude.{◌&&◌, ◌||◌, not}
use bulk_http.Prelude.Int.{ℤ, lt_num}
use bulk_http.Except.{Except, ok, value_error, ◌>>◌, raise_if}
use bulk_http.Floats.{Floats, lt_f}

pub record AdaptiveRateConfig (F : Floats) : Type 0 where
  pub start_rate : F.Float
  pub min_rate : F.Float
  pub max_rate : F.Float
  pub increase_step : F.Float
  pub increase_after : ℤ
  pub decrease_factor : F.Float
  pub ban_failures : ℤ
  pub max_attempts : ℤ

module _ {F : Floats} where
  -- AdaptiveRateConfig.__post_init__
  unfoldable pub check_adaptive : AdaptiveRateConfig F → Except (AdaptiveRateConfig F)
  check_adaptive c = do
    raise_if
        (not (
          lt_f F F.zero_f c.min_rate
          && (F.le_f c.min_rate c.start_rate && F.le_f c.start_rate c.max_rate)))
        value_error
    raise_if (not (lt_f F F.zero_f c.decrease_factor && lt_f F c.decrease_factor F.one_f))
        value_error
    raise_if (lt_num c.increase_after 1 || F.le_f c.increase_step F.zero_f) value_error
    raise_if (lt_num c.ban_failures 1) value_error
    raise_if (lt_num c.max_attempts 1) value_error
    ok c
