-- ===== src/Utils/Encodings/Tests.antt =====
-- The length of the lead byte of the Euro sign.
