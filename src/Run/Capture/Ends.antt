-- ===== src/Run/Capture/Ends.antt =====
-- runCapture of broker/src/tools-run.ts: that its reads end, and with what text.
use gha_mcp_host.Prelude.{true, true}
use gha_mcp_host.Text.{Text}
use gha_mcp_host.Run.Capture.{Capture}
