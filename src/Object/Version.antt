-- ===== src/Object/Version.antt =====
-- The versions of CRI that the proxy has.
use criproxy.Prelude.{Bool, true, false}

pub data Version : Type 0 where
  cri19 cri112 : Version

unfoldable pub is_version : Version → Version → Bool
is_version cri19 cri19 = true
is_version cri112 cri112 = true
is_version _ _ = false
