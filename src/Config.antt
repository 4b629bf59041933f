-- ===== src/Config.antt =====
-- broker/src/config.ts: the platforms of the runners.
pub data Platform : Type 0 where
  linux macos windows : Platform
