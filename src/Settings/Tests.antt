-- ===== src/Settings/Tests.antt =====
-- The default settings follow the rule.
use fastapi_project.Prelude.{arith}
use fastapi_project.Settings.{defaults, FollowsRule}

defaults-FollowsRule : FollowsRule defaults
defaults-FollowsRule = omega arith
