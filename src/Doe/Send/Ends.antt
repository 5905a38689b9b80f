-- ===== src/Doe/Send/Ends.antt =====
-- How `device_doe_send_message` ends.
