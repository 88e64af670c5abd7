-- ===== src/Preflight/Verdict/Overall.antt =====
-- When a whole descriptor is safe to present.
