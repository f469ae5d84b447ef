-- ===== src/Draw/Driver/Drawn.antt =====
-- What the driver does with the text of a script.
use csf.Base.Text.{Text}
use csf.Draw.Input.{Driver}
