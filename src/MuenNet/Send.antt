-- ===== src/MuenNet/Send.antt =====
-- bindings/muen/muen-net.c: a packet that is written to a channel.
