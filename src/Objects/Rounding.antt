-- ===== src/Objects/Rounding.antt =====
-- Objects take whole lines, and which of them are freed.
