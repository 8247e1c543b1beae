-- ===== src/Program/Start.antt =====
-- What the client mode of src/joebot/main.go starts.
use joebot.Client.{Client}
