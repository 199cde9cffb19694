-- ===== src/RateLimit/Span.antt =====
-- How many requests any stretch of time as long as a window lets through.
