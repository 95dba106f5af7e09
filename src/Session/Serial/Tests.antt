-- ===== src/Session/Serial/Tests.antt =====
-- Device paths.
use pty_mcp.Base.{◌≡◌, refl, true, false}
use pty_mcp.Text.{codes, cut_prefix, contains}
use pty_mcp.Session.Serial.{is_valid_serial_device}

usb : is_valid_serial_device (codes "/dev/ttyUSB0") ≡ true
unfolding is_valid_serial_device contains cut_prefix
usb = refl

climbs : is_valid_serial_device (codes "/dev/tty/../sda") ≡ false
unfolding is_valid_serial_device contains cut_prefix
climbs = refl
