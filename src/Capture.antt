-- ===== src/Capture.antt =====
-- internal/capture/emulator.go: the byte scanner that frames terminal output, and the splicing of
-- Emulator.Write. The terminal emulator itself (x/vt) and the width of a rune are third-party code:
-- parameters. An array of which the code reads a prefix is that prefix; `utf8Got` is its length.
pub mod Scanner
pub mod Emulator
pub mod Graphics
use gossh.Prelude.{Bool, true, false}

pub data GfxEvt : Type 0 where
  gfx_none gfx_rune gfx_osc_payload gfx_dcs_payload gfx_apc_payload gfx_csi_replaced : GfxEvt

pub data GfxScanState : Type 0 where
  gs_scan gs_esc gs_csi gs_utf8 gs_osc gs_osc_end gs_dcs gs_dcs_end gs_apc gs_apc_end : GfxScanState
