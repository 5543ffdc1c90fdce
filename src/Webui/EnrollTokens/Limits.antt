-- ===== src/Webui/EnrollTokens/Limits.antt =====
-- What a token that the dashboard creates is worth.
